-- ===== src/Dataflow/Memo/Identity.antt =====
-- solution/memoization.py, `id_for_memo` and `Memoizer.make_hash`: what identifies a call.
pub mod Reordering
use Prim.Native.Char.{code}
use talents_parsl_checkpoint.Prelude.{
  ℕ, ◌==◌, String, Bool, true, false, ◌&&◌, ◌||◌, Option, none, some, List, [], ◌∷◌, ◌++◌, ltb,
  if◌then◌else◌,
}
use text.Mathlib.Text.{◌==◌ as str_eq}
use talents_parsl_checkpoint.Dataflow.Errors.{
  pickling_error, value_error, key_error, Result, ok, err, ◌>>=◌,
}
use talents_parsl_checkpoint.Dataflow.Values.{
  Value, Items, Fields, Runtime, none_value, boolean, num, str, bytes, list, tuple, dict, function,
  future, other, nil, cons, end, field,
}
use talents_parsl_checkpoint.Dataflow.Tasks.{TaskRecord}

abbrev pub codes : String → List ℕ
codes String.[] = []
codes (String.◌∷◌ c s) = code c ∷ codes s

-- `<=` on strings, by code points.
pub lex_le : List ℕ → List ℕ → Bool
lex_le [] ys = true
lex_le (x ∷ xs) [] = false
lex_le (x ∷ xs) (y ∷ ys) = ltb x y || (x == y && lex_le xs ys)

-- The normalised list that is pickled.
abbrev pub byte_items : List (List ℕ) → Items
byte_items [] = nil
byte_items (b ∷ bs) = cons (bytes b) (byte_items bs)

-- `sorted`, on the keys of a dictionary, each with what its value contributes.
pub insert_key :
    String → Result (List ℕ) → List (String × Result (List ℕ)) → List (String × Result (List ℕ))
insert_key k b [] = (k, b) ∷ []
insert_key k b ((j, c) ∷ rest) =
    if lex_le (codes k) (codes j) then (k, b) ∷ (j, c) ∷ rest else (j, c) ∷ insert_key k b rest

unfoldable pub sort_keys : List (String × Result (List ℕ)) → List (String × Result (List ℕ))
sort_keys [] = []
sort_keys ((k, b) ∷ rest) = insert_key k b (sort_keys rest)

module _ (rt : Runtime) where
  -- `pickle.dumps`
  abbrev pickled : Value → Result (List ℕ)
  pickled v = elim (rt.dumps v) [ some b ↦ ok b | none ↦ err pickling_error ]

  -- The pickled keys and the values' bytes, alternately.
  abbrev gather_ids : List (String × Result (List ℕ)) → Result (List (List ℕ))
  gather_ids [] = ok []
  gather_ids ((k, r) ∷ rest) = do
    kb ← pickled (str k)
    b ← r
    bs ← gather_ids rest
    ok (kb ∷ b ∷ bs)

  abbrev dict_id : List (String × Result (List ℕ)) → Result (List ℕ)
  dict_id ids = do bs ← gather_ids (sort_keys ids); pickled (list (byte_items bs))

  -- The dispatch on the type. A boolean is an int. `output_ref` is handed down, and none of the
  -- methods of this module reads it.
  unfoldable mutual
    pub id_for_memo : Value → Bool → Result (List ℕ)
    id_for_memo none_value output_ref = pickled none_value
    id_for_memo (boolean b) output_ref = pickled (boolean b)
    id_for_memo (num n) output_ref = pickled (num n)
    id_for_memo (str s) output_ref = pickled (str s)
    id_for_memo (bytes b) output_ref = err value_error
    id_for_memo (list xs) output_ref = do
      bs ← items_ids xs output_ref
      pickled (list (byte_items bs))
    id_for_memo (tuple xs) output_ref = do
      bs ← items_ids xs output_ref
      pickled (list (byte_items bs))
    id_for_memo (dict fs) output_ref = dict_id (fields_ids fs output_ref)
    id_for_memo (function name module_name) output_ref =
        pickled
          (list (cons (str "types.FunctionType") (cons (str name) (cons (str module_name) nil))))
    id_for_memo (future f) output_ref = err value_error
    id_for_memo (other c) output_ref = err value_error

    pub items_ids : Items → Bool → Result (List (List ℕ))
    items_ids nil output_ref = ok []
    items_ids (cons v xs) output_ref = do
      b ← id_for_memo v output_ref
      bs ← items_ids xs output_ref
      ok (b ∷ bs)

    pub fields_ids : Fields → Bool → List (String × Result (List ℕ))
    fields_ids end output_ref = []
    fields_ids (field k v fs) output_ref = (k, id_for_memo v output_ref) ∷ fields_ids fs output_ref

-- `kwargs[k]`, and whether `k in kwargs`.
abbrev pub get_kwarg : String → Fields → Option Value
get_kwarg k end = none
get_kwarg k (field j v fs) = if str_eq j k then some v else get_kwarg k fs

-- `del filtered_kw[k]`, which raises KeyError if the key is not there.
abbrev remove_kwarg : String → Fields → Fields
remove_kwarg k end = end
remove_kwarg k (field j v fs) = if str_eq j k then fs else field j v (remove_kwarg k fs)

pub delete_kwarg : String → Fields → Result Fields
delete_kwarg k fs = elim (get_kwarg k fs) [ some v ↦ ok (remove_kwarg k fs) | none ↦ err key_error ]

-- The loop over `ignore_for_cache`.
unfoldable pub filter_kw : List String → Fields → Result Fields
filter_kw [] fs = ok fs
filter_kw (k ∷ ks) fs = do fs' ← delete_kwarg k fs; filter_kw ks fs'

module _ (rt : Runtime) where
  -- The outputs are taken out of the kwargs, and identified as output references.
  split_outputs : Option Value → Fields → Result (List ℕ × Fields)
  split_outputs none filtered = ok ([], filtered)
  split_outputs (some outputs) filtered = do
    rest ← delete_kwarg "outputs" filtered
    b ← id_for_memo rt outputs true
    ok (b, rest)

  -- The bytes that are digested: outputs, kwargs, function and arguments.
  unfoldable pub call_bytes : TaskRecord → Result (List ℕ)
  unfolding split_outputs
  call_bytes t = do
    filtered ← filter_kw t.ignore_for_cache t.kwargs
    split ← split_outputs (get_kwarg "outputs" t.kwargs) filtered
    kb ← id_for_memo rt (dict split.1) false
    fb ← id_for_memo rt t.func false
    ab ← id_for_memo rt (list t.args) false
    ok (split.0 ++ (kb ++ (fb ++ ab)))

  -- `Memoizer.make_hash`
  unfoldable pub make_hash : TaskRecord → Result String
  make_hash t = do b ← call_bytes t; ok (rt.md5 b)
