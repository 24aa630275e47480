-- ===== src/Examples/Database.antt =====
-- A database in memory that keeps a log of writes, behind the sessions of SQLAlchemy.
pub mod Laws
use dms_core.Prelude.{
  ℕ, zero, suc, Text, text_eq, text_eq_iff, Bool, true, false, not, ◌&&◌, Option, none, some,
  is_some, List, [], ◌∷◌, put, remove, filter, map, take, drop, ◌≡◌, ◌≢◌, refl, ap, sym, ◌∙◌, arith,
  if◌then◌else◌, Bool-cases, Option-cases, inl, inr,
}
use dms_core.Domain.Models.{DocumentMetadata, DocumentStatus, status_of, PartitionKind}
use dms_core.Domain.Errors.{other_error, integrity_error}
use dms_core.Domain.Exec.{Outcome, ok, raised, Exec}
use dms_core.Domain.Laws.{Table}
use dms_core.Infrastructure.Metadata.{
  Row, Condition, Statement, Sessions, from_domain, to_domain, map_option, selecting,
}
use dms_core.Infrastructure.Metadata.Laws.{
  SessionsLaws, by_id, selects, read_back, limited, Scalar, Scalars, Adds, Merges, Deletes, GetsRow,
}
use dms_core.Examples.Memory.{now}
use dms_core.Examples.Order.{
  before, text_order, arranged, without_id, arranged-IsDescending, by_id-arranged_cons,
  by_id-arranged, by_id-without_id,
}

pub record Database : Type 0 where
  pub log : List DocumentMetadata
  pub next : ℕ
  pub down : Bool

abbrev pub documents : Database → List DocumentMetadata
documents d = arranged d.log

abbrev pub row : DocumentMetadata → Row
row m = read_back false (from_domain m)

-- A call that raises when the database is down.
abbrev pub reachable : {A : Type 0} → Exec Database A → Exec Database A
reachable m d = if d.down then (raised (other_error 0), d) else m d

abbrev pub select_or :
    (DocumentMetadata → Bool)
    → Option DocumentMetadata
    → Option DocumentMetadata
    → Option DocumentMetadata
select_or q none rest = rest
select_or q (some m) rest = if q m then some m else rest

-- The first of some documents that the table holds and the conditions select.
unfoldable pub first_selected :
    Table → (DocumentMetadata → Bool) → List DocumentMetadata → Option DocumentMetadata
first_selected t q [] = none
first_selected t q (n ∷ l) = let rest = first_selected t q l in select_or q (t n.document_id) rest

abbrev pub log_document : Option DocumentMetadata → Exec Database (Unit {0})
log_document none d = (raised (other_error 0), d)
log_document (some m) d = (ok tt, record d { log = m ∷ d.log })

abbrev pub write_row : Row → Exec Database (Unit {0})
write_row r = log_document (to_domain r)

abbrev pub sessions : Sessions Database
sessions = record {
  scalar = λ q. reachable (λ d. (
    ok (
        map_option row
          (first_selected (by_id (documents d)) (selects before q.conditions) (documents d))),
    d,
  ));
  scalars = λ q. reachable (λ d. (
    ok (
        map row
          (limited q.limit (drop q.offset (filter (selects before q.conditions) (documents d))))),
    d,
  ));
  get = λ id. reachable (λ d. (ok (map_option row (by_id (documents d) id)), d));
  add = λ r. reachable (λ d.
      if is_some (by_id (documents d) r.document_id)
      then (raised integrity_error, d)
      else write_row r d);
  merge = λ r. reachable (write_row r);
  delete = λ r. reachable (λ d. (ok tt, record d { log = without_id r.document_id (documents d) }));
  next_id = reachable (λ d. (ok (suc d.next ∷ []), record d { next = suc d.next }));
  utcnow = λ d. now;
}
