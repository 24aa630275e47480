-- ===== src/Sdk/Streams/Laws.antt =====
-- What a content stream relies on of the stream under it.
use dms_core.Prelude.{ℕ, suc, ◌≤◌, ◌<◌, Option, none, some, [], ◌++◌, ◌≡◌, length}
use dms_core.Domain.Exec.{Outcome, ok, raised, Exec}
use dms_core.Domain.Interfaces.{Bytes}
use dms_core.Sdk.Streams.{Reader}

module _ {S : Type 0} (left : S → Bytes) (closes : S → ℕ) where
  -- A read gives the next bytes, as many as were asked for at most, and none only at the end; where
  -- it raises, what was left may be lost. It closes nothing.
  abbrev pub Reads : ℕ → S → Outcome Bytes × S → Type 0
  Reads size s (ok chunk, s') =
      (left s ≡ chunk ++ left s')
      × (length chunk ≤ size)
      × (chunk ≡ [] → left s ≡ [])
      × (closes s' ≡ closes s)
  Reads size s (raised e, s') = closes s' ≡ closes s

  -- A call that closes is counted, whether it returns or raises.
  abbrev pub Closes : S → Outcome (Unit {0}) × S → Type 0
  Closes s x = closes x.1 ≡ suc (closes s)

  abbrev pub Releases : Option (Exec S (Unit {0})) → S → Type 0
  Releases none s = Unit
  Releases (some release) s = closes (release s).1 ≡ closes s

pub record ReaderLaws {S : Type 0} (reader : Reader S) : Type 0 where
  -- what is still to be read, and how often the stream was closed
  pub left : S → Bytes
  pub closes : S → ℕ
  pub reads : (size : ℕ) (s : S) → 0 < size → Reads left closes size s (reader.read size s)
  pub closing : (s : S) → Closes left closes s (reader.close s)
  pub releases : (s : S) → Releases left closes reader.release_conn s
