-- ===== src/Index/Rising.antt =====
-- The posting files that the indexer leaves: what the merge of a search relies on.
use opmes.Base.{
  ℕ, suc, ◌+◌, ◌<◌, ◌≤◌, ◌≡◌, refl, Bool, true, false, List, [], ◌∷◌, ◌++◌, leb, if◌then◌else◌,
  arith, length, length-append, Bool-cases, inl, inr,
}
use opmes.Base.Exec.{ok}
use opmes.Parser.{Subpath}
use opmes.Search.DirMerge.{PathName, under, same_name}
use opmes.Search.PosMerge.{PostingItem}
use opmes.Search.PosMerge.Items.{AllFrom, IsAscending}
use opmes.Search.PosMerge.Spec.{AllUnder}
use opmes.Search.Query.Drive.{posting_bin}
use opmes.Index.Util.{max_dir_name_len, mkdir_p-ok, mkdir_dir, cut_slash}
use opmes.Index.Run.{Disk, System, col, posting_path, append_item, posting_write_one, posting_write}

-- The IDs of every posting file do not fall, and `n` is the largest that one can have.
abbrev pub IsRising : ℕ → Disk → Type 0
IsRising n disk = (q : PathName) → IsAscending (disk.posting q) × AllUnder (suc n) (disk.posting q)

-- The path of the posting file fits into its buffer.
abbrev pub AllFit : List Subpath → Type 0
AllFit [] = Unit
AllFit (p ∷ ps) = (length p.dir + 16 < max_dir_name_len) × AllFit ps

pub AllUnder-mono : (m n : ℕ) (xs : List PostingItem) → m ≤ n → AllUnder m xs → AllUnder n xs
AllUnder-mono m n [] h u = tt
AllUnder-mono m n (x ∷ xs) h (u, us) = (omega (arith, h, u), AllUnder-mono m n xs h us)

AllFrom-snoc :
    (n : ℕ) (xs : List PostingItem) (it : PostingItem)
    → n ≤ it.id
    → AllFrom n xs
    → AllFrom n (xs ++ it ∷ [])
AllFrom-snoc n [] it h f = (h, tt)
AllFrom-snoc n (x ∷ xs) it h (f, fs) = (f, AllFrom-snoc n xs it h fs)

snoc-IsAscending :
    (xs : List PostingItem) (it : PostingItem)
    → IsAscending xs
    → AllUnder (suc it.id) xs
    → IsAscending (xs ++ it ∷ []) × AllUnder (suc it.id) (xs ++ it ∷ [])
snoc-IsAscending [] it a u = ((tt, tt), (omega arith, tt))
snoc-IsAscending (x ∷ xs) it (f, a) (u, us) =
    let (a', u') = snoc-IsAscending xs it a us in
    ((AllFrom-snoc x.id xs it (omega (arith, u)) f, a'), (u, u'))

append_item-IsRising :
    (disk : Disk) (path : PathName) (it : PostingItem)
    → IsRising it.id disk
    → IsRising it.id (record disk { posting = append_item disk.posting path it })
append_item-IsRising disk path it up q = elim (Bool-cases (same_name q path)) [
  | inl e ↦ rw e (snoc-IsAscending (disk.posting q) it (up q).0 (up q).1)
  | inr e ↦ rw e (up q)
]

module _ (sys : System) (id : ℕ) where
  either :
      (b : Bool) (x y : Disk) → IsRising id x → IsRising id y → IsRising id (if b then x else y)
  either true x y hx hy = hx
  either false x y hx hy = hy

  posting_write_one-IsRising :
      (p : Subpath) (disk : Disk)
      → length p.dir + 16 < max_dir_name_len
      → IsRising id disk
      → (d : Disk) × (posting_write_one sys id p disk ≡ ok d) × IsRising id d
  unfolding posting_write_one
  posting_write_one-IsRising p disk fits up =
      let dir = mkdir_p-ok (under col p.dir) (omega arith) (omega (arith, fits)) in
      let room : leb max_dir_name_len (length (posting_path p.dir)) ≡ false =
        ground (arith, fits, length-append p.dir (b'/' ∷ posting_bin)) in
      let dirs = mkdir_dir (cut_slash (under col p.dir)) in
      let made : Disk = record disk { made = disk.made ++ dirs } in
      let path = posting_path p.dir in
      let it : PostingItem = record { id = id; brw = p.brw } in
      let written : Disk = record made { posting = append_item made.posting path it } in
      (
        if sys.fopen made path then written else made,
        rw (dir, room) refl,
        either (sys.fopen made path) written made (append_item-IsRising disk path it up) up,
      )

  pub posting_write-IsRising :
      (li : List Subpath) (disk : Disk)
      → AllFit li
      → IsRising id disk
      → (d : Disk) × (posting_write sys li id disk ≡ ok d) × IsRising id d
  unfolding posting_write
  posting_write-IsRising [] disk fits up = (disk, refl, up)
  posting_write-IsRising (p ∷ ps) disk (fits, rest) up =
      let (d, run, up_d) = posting_write_one-IsRising p disk fits up in
      let (e, more, up_e) = posting_write-IsRising ps d rest up_d in (e, rw run more, up_e)
