-- ===== src/Db/OfflineDownloads/Laws.antt =====
-- backend/internal/db: what the updates of a download change for its user and for others.
use purp_tape.Base.{
  ◌≡◌, refl, sym, ap, ◌∙◌, subst, ◌≢◌, inl, inr, Bool-cases, String, some, List, [], ◌∷◌, All,
  arith, str_eq, eq_iff,
}
use purp_tape.Db.OfflineDownloads.{
  OfflineDownload, is_completed, completed_bytes, find_download, with_status, downloads_of,
}

-- A row that is not completed does not count.
pub completed_bytes-new :
    (user_id : String) (d : OfflineDownload) (table : List OfflineDownload)
    → d.status ≡ "pending"
    → completed_bytes user_id (d ∷ table) ≡ completed_bytes user_id table
unfolding completed_bytes is_completed
completed_bytes-new user_id d table pending =
    ground (arith, pending, eq_iff d.status "completed", eq_iff "pending" "completed")

-- The primary key.
abbrev pub IsKeyed : List OfflineDownload → Type 0
IsKeyed [] = Unit
IsKeyed (d ∷ table) = All (λ e. e.id ≢ d.id) table × IsKeyed table

with_status-absent :
    (id status : String) (table : List OfflineDownload)
    → All (λ e. e.id ≢ id) table
    → with_status id status table ≡ table
unfolding with_status
with_status-absent id status [] h = refl
with_status-absent id status (d ∷ table) (n, rest) =
    ground (arith, eq_iff d.id id, n, with_status-absent id status table rest)

-- The status of a row of one user is nothing to the others.
pub downloads_of-with_status :
    (id status other : String) (table : List OfflineDownload) (d : OfflineDownload)
    → IsKeyed table
    → find_download id table ≡ some d
    → d.user_id ≢ other
    → downloads_of other (with_status id status table) ≡ downloads_of other table
unfolding downloads_of find_download with_status
downloads_of-with_status id status other [] d keyed found n = refl
downloads_of-with_status id status other (e ∷ table) d (fresh, keyed) found n =
    elim (Bool-cases (str_eq e.id id)) [
      | inl same ↦
          let q : e ≡ d = ground (arith, found, same) in
          let i : e.id ≡ id = ground (arith, same, eq_iff e.id id) in
          let rest =
            with_status-absent id status table (subst (λ k. All (λ x. x.id ≢ k) table) i fresh) in
          let m : e.user_id ≢ other = λ u. n (ap (λ x. x.user_id) (sym q) ∙ u) in
          ground (arith, same, rest, m, eq_iff e.user_id other)
      | inr differs ↦
          let f : find_download id table ≡ some d = ground (arith, found, differs) in
          let ih = downloads_of-with_status id status other table d keyed f n in
          ground (arith, differs, ih)
    ]

-- The row of an id after its update.
pub find_download-with_status :
    (id status : String) (table : List OfflineDownload) (d : OfflineDownload)
    → find_download id table ≡ some d
    → find_download id (with_status id status table) ≡ some (record d { status = status })
unfolding find_download with_status
find_download-with_status id status [] d found = absurd (ground (arith, found))
find_download-with_status id status (e ∷ table) d found = elim (Bool-cases (str_eq e.id id)) [
  | inl same ↦
      let q : e ≡ d = ground (arith, found, same) in
      let f = ap (λ (x : OfflineDownload). some (record x { status = status })) q in
      ground (arith, same, f)
  | inr differs ↦
      let f : find_download id table ≡ some d = ground (arith, found, differs) in
      let rest = find_download-with_status id status table d f in ground (arith, differs, rest)
]

-- The row of another id.
pub find_download-with_status_other :
    (id status other : String) (table : List OfflineDownload)
    → other ≢ id
    → find_download other (with_status id status table) ≡ find_download other table
unfolding find_download with_status
find_download-with_status_other id status other [] n = refl
find_download-with_status_other id status other (e ∷ table) n =
    let rest = find_download-with_status_other id status other table n in
    ground (arith, rest, eq_iff e.id id, eq_iff e.id other, n)
