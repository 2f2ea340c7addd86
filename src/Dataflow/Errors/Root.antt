-- ===== src/Dataflow/Errors/Root.antt =====
-- environment/parsl/dataflow/errors.py, `PropagatedException._find_any_root_cause`.
use Prim.Native.String
use talents_parsl_checkpoint.Prelude.{
  refl, String, ◌≡◌, List, [], ◌∷◌, ◌++◌, ◌∙◌, append_assoc, sym, append-nil,
}
use talents_parsl_checkpoint.Dataflow.Errors.{
  Exn, Causes, dependency_error, join_error, no_cause, cause,
}

-- The description of the first cause, marked if there are others.
abbrev pub label : String → Causes → String
label tid no_cause = tid
label tid (cause _ _ _) = String.◌++◌ tid " (+ others)"

-- The `while` loop, over the exception at hand and the descriptions gathered so far.
pub follow : Exn → List String → Exn × List String
follow (dependency_error (cause e tid more) task_id) dep_ids =
    follow e (dep_ids ++ label tid more ∷ [])
follow (join_error (cause e tid more) task_id) dep_ids = follow e (dep_ids ++ label tid more ∷ [])
follow e dep_ids = (e, dep_ids)

pub find_any_root_cause : Exn → Exn × List String
find_any_root_cause e = follow e []

-- The causes of a propagated exception; another exception has none.
abbrev causes_of : Exn → Causes
causes_of (dependency_error causes _) = causes
causes_of (join_error causes _) = causes
causes_of _ = no_cause

-- `Via e ids root`: from e, first cause by first cause, with the descriptions ids, one comes to
-- root, which has no cause of its own. The description of an only cause is as it is, that of the first
-- of several says that there are others.
pub data Via : Exn → List String → Exn → Type 0 where
  here : (e : Exn) → causes_of e ≡ no_cause → Via e [] e
  only :
      (e d : Exn) (tid : String) {ids : List String} {root : Exn}
      → causes_of e ≡ cause d tid no_cause
      → Via d ids root
      → Via e (tid ∷ ids) root
  first_of :
      (e d x : Exn) (tid other : String) (others : Causes) {ids : List String} {root : Exn}
      → causes_of e ≡ cause d tid (cause x other others)
      → Via d ids root
      → Via e (String.◌++◌ tid " (+ others)" ∷ ids) root

-- A step to the first cause, whichever there are behind it.
step-Via :
    (e d : Exn) (tid : String) (others : Causes) {ids : List String} {root : Exn}
    → causes_of e ≡ cause d tid others
    → Via d ids root
    → Via e (label tid others ∷ ids) root
step-Via e d tid no_cause are via = Via.only e d tid are via
step-Via e d tid (cause x other others) are via = Via.first_of e d x tid other others are via

follow-Via :
    (e : Exn) (ids : List String)
    → (more : List String) × ((follow e ids).1 ≡ ids ++ more) × Via e more (follow e ids).0
unfolding follow
follow-Via (dependency_error (cause d tid others) i) ids =
    let (more, same, via) = follow-Via d (ids ++ label tid others ∷ []) in
    (
      label tid others ∷ more,
      same ∙ append_assoc ids (label tid others ∷ []) more,
      step-Via (dependency_error (cause d tid others) i) d tid others refl via,
    )
follow-Via (join_error (cause d tid others) i) ids =
    let (more, same, via) = follow-Via d (ids ++ label tid others ∷ []) in
    (
      label tid others ∷ more,
      same ∙ append_assoc ids (label tid others ∷ []) more,
      step-Via (join_error (cause d tid others) i) d tid others refl via,
    )
follow-Via e ids = ([], sym (append-nil ids), Via.here e refl)

-- For every exception, the loop ends at an exception that has no cause of its own, and the
-- descriptions that it gathers are those of the first causes on the way, in order: each as it is if the
-- cause is the only one, with " (+ others)" behind it if it is the first of several.
pub find_any_root_cause-Via : (e : Exn) → Via e (find_any_root_cause e).1 (find_any_root_cause e).0
unfolding find_any_root_cause
find_any_root_cause-Via e = let (more, same, via) = follow-Via e [] in rw same via
