-- ===== src/Sdk/Documents/Readable.antt =====
-- Which documents may be read, told from `is_excluded` apart from its code.
use dms_core.Prelude.{true, false, ◌≡◌}
use dms_core.Domain.Models.{DocumentStatus}
use dms_core.Sdk.Documents.{is_excluded}

-- The statuses of a document whose content may be read.
abbrev pub IsReadable : DocumentStatus → Type 0
IsReadable DocumentStatus.uploaded = Unit {0}
IsReadable DocumentStatus.available = Unit {0}
IsReadable DocumentStatus.failed = Unit {0}
IsReadable DocumentStatus.deleting = ⊥
IsReadable DocumentStatus.deleted = ⊥

-- The statuses of a document that is deleted or about to be.
abbrev pub IsGone : DocumentStatus → Type 0
IsGone DocumentStatus.uploaded = ⊥
IsGone DocumentStatus.available = ⊥
IsGone DocumentStatus.failed = ⊥
IsGone DocumentStatus.deleting = Unit {0}
IsGone DocumentStatus.deleted = Unit {0}

pub is_excluded-IsReadable : (s : DocumentStatus) → is_excluded s ≡ false → IsReadable s
is_excluded-IsReadable DocumentStatus.uploaded h = tt
is_excluded-IsReadable DocumentStatus.available h = tt
is_excluded-IsReadable DocumentStatus.failed h = tt
is_excluded-IsReadable DocumentStatus.deleting h = cc
is_excluded-IsReadable DocumentStatus.deleted h = cc

pub is_excluded-IsGone : (s : DocumentStatus) → is_excluded s ≡ true → IsGone s
is_excluded-IsGone DocumentStatus.uploaded h = cc
is_excluded-IsGone DocumentStatus.available h = cc
is_excluded-IsGone DocumentStatus.failed h = cc
is_excluded-IsGone DocumentStatus.deleting h = tt
is_excluded-IsGone DocumentStatus.deleted h = tt

pub gone_unreadable : (s : DocumentStatus) → IsReadable s → IsGone s → ⊥
gone_unreadable DocumentStatus.uploaded r g = g
gone_unreadable DocumentStatus.available r g = g
gone_unreadable DocumentStatus.failed r g = g
gone_unreadable DocumentStatus.deleting r g = r
gone_unreadable DocumentStatus.deleted r g = r
