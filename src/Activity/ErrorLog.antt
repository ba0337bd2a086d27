-- ===== src/Activity/ErrorLog.antt =====
-- xray_vps_manager/activity/raw_logs.py: the reader of Xray's error log, which keeps the place in
-- the file that it has read up to.
pub mod Bytes
pub mod Whole
use xray_vps_manager.Activity.ErrorEvents.{Item, Row, upsert_each}
use xray_vps_manager.Base.{
  ℕ, ◌+◌, ◌-◌, String, Bool, true, false, not, ◌&&◌, Option, none, some, List, [], ◌∷◌, ◌++◌,
  if◌then◌else◌, nat_eq, leb, get_or, length, drop,
}

-- The row of `file_offsets` for the error log; `none` is no inode.
pub record Saved : Type 0 where
  pub inode : Option ℕ
  pub offset : ℕ

-- The state of the database: that row, and the table `xray_error_events`.
pub record Database : Type 0 where
  pub saved : Saved
  pub rows : List Row

-- What the system answers in one run. `stat` is the inode and the size, `data_at` the bytes of the
-- file when it is read; `none` is an OSError.
pub record Answers : Type 0 where
  pub log_exists : Bool
  pub database_exists : Bool
  pub stat : Option (ℕ × ℕ)
  pub content : Option (List ℕ)

abbrev pub same_inode : Option ℕ → ℕ → Bool
same_inode none n = false
same_inode (some i) n = nat_eq i n

-- The place from which a run reads a file with an inode and a size.
unfoldable pub read_from : Saved → ℕ → ℕ → ℕ
read_from saved inode size =
    if same_inode saved.inode inode && leb saved.offset size then saved.offset else 0

abbrev pub parsed {ℓ} : {A : Type ℓ} {E : Type 0} → (A → Option E) → List A → List E
parsed parse [] = []
parsed parse (line ∷ lines) = elim (parse line) [
  | none ↦ parsed parse lines
  | some event ↦ event ∷ parsed parse lines
]

-- `lower` is `str.lower`, `digest` the SHA-256; `lines` is `data.decode("utf-8", errors="replace").splitlines()`, and `parse` is
-- `parse_xray_error_line`.
module _ (lower digest : String → String) (lines : List ℕ → List String)
    (parse : String → Option Item) where
  -- The transaction: the events of the bytes behind the offset, and the new place.
  unfoldable pub store_data : Database → ℕ → ℕ → List ℕ → Database
  store_data db inode offset content =
      let data' = drop offset content in
      record {
        saved = record { inode = some inode; offset = offset + length data' };
        rows = upsert_each lower digest db.rows (parsed parse (lines data'));
      }

  -- The database and the exit code after a run.
  unfoldable pub sync_error_log : Database → Answers → Database × ℕ
  unfolding store_data read_from
  sync_error_log db answers =
      if not answers.log_exists
      then (db, 0)
      else if not answers.database_exists
      then (db, 0)
      else elim answers.stat [
        | none ↦ (db, 1)
        | some (inode, size) ↦ elim answers.content [
          | none ↦ (db, 1)
          | some content ↦ (store_data db inode (read_from db.saved inode size) content, 0)
        ]
      ]
