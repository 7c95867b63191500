-- ===== src/Client/Tests.antt =====
-- A cluster identity from the server, and an opening that fails under its lease.
use relyt_ingest.Common.{◌≡◌, refl, ◌⊎◌, true, Option, none, some, ℕ}
use relyt_ingest.Common.Text.{codes, Bytes, bytes_eq}
use relyt_ingest.Errors.{ok, err, config, Result}
use relyt_ingest.Naming.{WriterIdentity}
use relyt_ingest.Config.{upsert}
use relyt_ingest.Lock.{LockFile, new_lock}
use relyt_ingest.Schema.{TableSchema}
use relyt_ingest.Schema.Tests.{table, index_of}
use relyt_ingest.Client.{got, resolve_cluster_id, open_table_inner}
use relyt_ingest.Client.Cluster.{IsUsable, resolve_cluster_id-IsUsable}
use relyt_ingest.Client.Release.{NotLeased, Released, Kept, open_table_inner_cases}

resolved : resolve_cluster_id none (got (some (codes "13727"))) ≡ ok (codes "13727")
unfolding resolve_cluster_id bytes_eq
resolved = refl

resolve_cluster_id-IsUsable_example :
    IsUsable (codes "13727")
    × ((◌≡◌ {A = Option Bytes} none (some (codes "13727")))
        ⊎ ((◌≡◌ {A = Option Bytes} none none)
            × (got (some (codes "13727")) ≡ got (some (codes "13727")))))
resolve_cluster_id-IsUsable_example =
    resolve_cluster_id-IsUsable none (got (some (codes "13727"))) (codes "13727") resolved

abbrev failing : WriterIdentity → TableSchema → Result ℕ
failing ident s = err (config "the server is gone")

abbrev mine : Result (Option LockFile)
mine = ok (some (new_lock (codes "me") 1 (codes "host") 9))

released_run :
    open_table_inner index_of upsert
      (codes "c")
      (codes "w-0")
      (codes "me")
      (ok table)
      (ok tt)
      failing
      mine
    ≡ (err (config "the server is gone"), true)
unfolding open_table_inner bytes_eq
released_run = refl

open_table_inner_cases_example :
    NotLeased index_of upsert (codes "c") (codes "w-0") (codes "me") (ok table) (ok tt) failing mine
    ⊎ Released index_of upsert
        (codes "c")
        (codes "w-0")
        (codes "me")
        (ok table)
        (ok tt)
        failing
        mine
    ⊎ Kept index_of upsert (codes "c") (codes "w-0") (codes "me") (ok table) (ok tt) failing mine
open_table_inner_cases_example =
    open_table_inner_cases index_of upsert (codes "c") (codes "w-0") (codes "me") (ok table) (ok tt)
      failing mine
