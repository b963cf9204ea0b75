-- ===== src/Rpc/Notes.antt =====
-- The note service on the wire (modules/example/adapter/grpc/handler.go), with the adapter of
-- bootstrap/modules.go to the policy engine. A policy set is that of the checker when the call asks.
pub mod Access
use lynk.Base.{ℕ, Bytes, codes, Bool, List, [], ◌∷◌, map, ℤ, if◌then◌else◌}
use lynk.Effects.{World, App, Result, ok, err, Error}
use lynk.Authz.{Principal, CompiledPolicy, Vars, decide}
use lynk.Notes.Database.{Db, Note}
use lynk.Notes.UseCases.{Outside, create_note, get_note, update_note, list_notes}
use lynk.Rpc.{
  Kind, AppError, new, wrap, Failure, app, Outcome, reply, failed, Rpc, Unary, with_principal,
}

-- The requests of example.v1.ExampleService.
pub data Call : Type 0 where
  create_note_call : (title body : Bytes) → Call
  get_note_call : (id : Bytes) → Call
  update_note_call : (id title body : Bytes) → (version : ℕ) → Call
  list_notes_call : (limit offset : ℤ) → Call

pub record ProtoNote : Type 0 where
  pub id : Bytes
  pub title : Bytes
  pub body : Bytes
  pub version : ℕ
  pub created_at : ℕ
  pub updated_at : ℕ

pub data Answer : Type 0 where
  note_answer : ProtoNote → Answer
  notes_answer : List ProtoNote → Answer

abbrev pub to_proto : Note → ProtoNote
to_proto n = record {
  id = n.id;
  title = n.title;
  body = n.body;
  version = n.version;
  created_at = n.created_at;
  updated_at = n.updated_at;
}

unfoldable pub classify : Error → AppError
classify Error.note_not_found =
    wrap Error.note_not_found Kind.not_found (codes "note_not_found") (codes "note not found")
classify Error.concurrent_update =
    wrap Error.concurrent_update Kind.conflict (codes "note_conflict")
      (codes "note was modified concurrently, re-read and retry")
classify Error.invalid_note_id =
    wrap Error.invalid_note_id Kind.invalid_input (codes "invalid_input") (codes "invalid note id")
classify Error.invalid_title =
    wrap Error.invalid_title Kind.invalid_input (codes "invalid_input")
      (codes "title must be 1-200 characters")
classify Error.missing_owner =
    wrap Error.missing_owner Kind.invalid_input (codes "invalid_input")
      (codes "note requires an owner")
classify Error.corrupt_note_id =
    wrap Error.corrupt_note_id Kind.invalid_input (codes "invalid_input")
      (codes "example: corrupt note id: invalid note id")
classify Error.corrupt_note_title =
    wrap Error.corrupt_note_title Kind.invalid_input (codes "invalid_input")
      (codes "example: corrupt note title: title must be 1-200 characters")
classify e = wrap e Kind.internal (codes "internal") (codes "internal error")

unfoldable pub conclude :
    {A : Type 0} → (A → Answer) → Result A × World Db → Outcome Answer × World Db
unfolding classify
conclude f (ok a, w) = (reply (f a), w)
conclude f (err e, w) = (failed (app (classify e)), w)

abbrev pub answering : {A : Type 0} → App Db A → (A → Answer) → Rpc Db Answer
answering m f w = conclude f (m w)

-- What the policies are asked about an update by `p`.
abbrev pub update_vars : Principal → Vars
update_vars p = record {
  subject = p;
  resource_type = codes "note";
  action = codes "update";
  resource = (codes "owner_id", p.user_id) ∷ [];
}

abbrev pub access_denied : AppError
access_denied =
    new Kind.permission_denied (codes "access_denied") (codes "not allowed to update notes")

module _ (o : Outside) (policies : List CompiledPolicy) where
  unfoldable pub updater : (id title body : Bytes) → ℕ → Principal → Rpc Db Answer
  unfolding decide conclude
  updater id title body version p w =
      if (decide policies (update_vars p)).allowed
      then answering (update_note o p.user_id id title body version) (λ n. note_answer (to_proto n))
          w
      else (failed (app access_denied), w)

  unfoldable pub handle_call : Unary Db Call Answer
  unfolding conclude updater with_principal
  handle_call ctx (create_note_call title body) =
      with_principal ctx.principal
        λ p. answering (create_note o p.user_id title body) λ n. note_answer (to_proto n)
  handle_call ctx (get_note_call id) =
      with_principal ctx.principal
        λ p. answering (get_note o p.user_id id) λ n. note_answer (to_proto n)
  handle_call ctx (update_note_call id title body version) =
      with_principal ctx.principal (updater id title body version)
  handle_call ctx (list_notes_call limit offset) =
      with_principal ctx.principal
        λ p. answering (list_notes o p.user_id limit offset) λ ns. notes_answer (map to_proto ns)
