-- ===== src/Dataflow/Values.antt =====
-- Python values and objects as the submit side sees them, and what it takes from Python's library:
-- `pickle`, `copy.deepcopy` and `hashlib.md5`.
use talents_parsl_checkpoint.Prelude.{
  ℕ, ◌+◌, ◌<◌, String, ◌≡◌, Bool, Option, none, some, List, ◌++◌, length, take, ◌==◌, if◌then◌else◌,
}

-- The keys of a `dict` are strings, as those of kwargs and of checkpoint records are.
mutual
  pub data Value : Type 0 where
    none_value : Value
    boolean : Bool → Value
    num : ℕ → Value
    str : String → Value
    bytes : List ℕ → Value
    list tuple : Items → Value
    dict : Fields → Value
    -- a function object: `__name__` and `__module__`
    function : String → String → Value
    -- a Future, by its ID
    future : ℕ → Value
    -- an object of any other class
    other : ℕ → Value

  pub data Items : Type 0 where
    nil : Items
    cons : Value → Items → Items

  pub data Fields : Type 0 where
    end : Fields
    field : String → Value → Fields → Fields

-- What Parsl relies on of the library. `dumps` and `deepcopy` give `none` where they raise. `load`
-- reads one object from the front of a stream and gives it with the rest; `none` is a raise.
pub record Runtime : Type 0 where
  pub dumps : Value → Option (List ℕ)
  pub load : List ℕ → Option (Value × List ℕ)
  pub deepcopy : Value → Option Value
  pub md5 : List ℕ → String
  -- a pickle is self-delimiting, and reads back as what was written
  pub load-dumps :
      (v : Value) (b rest : List ℕ) → dumps v ≡ some b → load (b ++ rest) ≡ some (v, rest)
  -- reading an object takes at least a byte
  pub load-shorter :
      (s rest : List ℕ) (v : Value) → load s ≡ some (v, rest) → length rest < length s
  -- a pickle that is cut off does not read
  pub load-truncated :
      (v : Value) (b : List ℕ) (n : ℕ) → dumps v ≡ some b → n < length b → load (take n b) ≡ none

-- The mutable objects: a reference below `size` holds a value. What a reference reaches is read as
-- one tree, so no two references share a part.
pub record Heap : Type 0 where
  pub size : ℕ
  pub content : ℕ → Value

unfoldable pub alloc : Value → Heap → ℕ × Heap
alloc v h =
    (h.size, record { size = h.size + 1; content = λ r. if r == h.size then v else h.content r })

-- User code writes to objects that exist, and makes new ones.
pub data Mutated : Heap → Heap → Type 0 where
  same : (h : Heap) → Mutated h h
  written :
      {h : Heap} (g : Heap) (r : ℕ) (v : Value)
      → r < g.size
      → Mutated h g
      → Mutated h (record g { content = λ q. if q == r then v else g.content q })
  created : {h : Heap} (g : Heap) (v : Value) → Mutated h g → Mutated h (alloc v g).1
