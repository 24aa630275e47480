-- ===== src/Examples/Documents.antt =====
-- The theorems on the document service at concrete worlds.
use dms_core.Prelude.{codes, true, false}
use dms_core.Sdk.Documents.{delete}
use dms_core.Sdk.Documents.Deletion.{Deletes, delete-Deletes}
use dms_core.Examples.Assembly.{env, laws, ada, world}

-- Storage is down: the record is marked as failed and the content stays.
delete-Deletes_example :
    Deletes env laws
      (codes "a")
      true
      ada
      (world false true)
      (delete env (codes "a") true ada (world false true))
delete-Deletes_example = delete-Deletes env laws (codes "a") true ada (world false true)
