-- ===== src/Handlers/Tracks/Uploads/Stored.antt =====
-- UploadTrackVersion: the versions have their files in R2, whatever becomes of an upload.
use purp_tape.Base.{
  ◌≡◌, refl, ◌∙◌, ◌≢◌, inl, inr, Bool, Bool-cases, true, false, ◌&&◌, ◌||◌, String, List, [], ◌∷◌,
  All, arith, str_eq, if◌then◌else◌, eq_iff, eq_refl,
}
use purp_tape.Db.Tracks.{TrackVersion}
use purp_tape.Handlers.Tracks.{Media}
use purp_tape.Handlers.Tracks.Uploads.{Outcome, is_numbered, fits, remove, finished}

-- An object with the key is in R2.
unfoldable pub is_stored : String → List String → Bool
is_stored key [] = false
is_stored key (k ∷ ks) = str_eq k key || is_stored key ks

-- The versions of a track have numbers of their own, and each version has its object.
abbrev pub IsNumbered : List TrackVersion → Type 0
IsNumbered [] = Unit
IsNumbered (v ∷ vs) = (is_numbered v.track_id v.version_number vs ≡ false) × IsNumbered vs

pub record IsSound (media : Media) : Type 0 where
  pub numbered : IsNumbered media.versions
  pub stored : All (λ v. is_stored v.r2_object_key media.bucket ≡ true) media.versions

pub is_stored_first : (key : String) (bucket : List String) → is_stored key (key ∷ bucket) ≡ true
unfolding is_stored
is_stored_first key bucket = rw (eq_refl key)

is_stored-insert :
    (key : String) (bucket : List String) (versions : List TrackVersion)
    → All (λ v. is_stored v.r2_object_key bucket ≡ true) versions
    → All (λ v. is_stored v.r2_object_key (key ∷ bucket) ≡ true) versions
unfolding is_stored
is_stored-insert key bucket [] h = tt
is_stored-insert key bucket (v ∷ versions) (here, rest) =
    (ground (arith, here), is_stored-insert key bucket versions rest)

is_stored-remove :
    (key other : String) (bucket : List String)
    → other ≢ key
    → is_stored other (remove key bucket) ≡ is_stored other bucket
unfolding is_stored remove
is_stored-remove key other [] n = refl
is_stored-remove key other (k ∷ bucket) n =
    ground
      (arith, eq_iff k key, eq_iff k other, eq_iff other key, is_stored-remove key other bucket n)

all_stored-remove :
    (key : String) (bucket : List String) (versions : List TrackVersion)
    → All (λ v. v.r2_object_key ≢ key) versions
    → All (λ v. is_stored v.r2_object_key bucket ≡ true) versions
    → All (λ v. is_stored v.r2_object_key (remove key bucket) ≡ true) versions
all_stored-remove key bucket [] fresh h = tt
all_stored-remove key bucket (v ∷ versions) (new, fresh) (here, rest) = (
  is_stored-remove key v.r2_object_key bucket new ∙ here,
  all_stored-remove key bucket versions fresh rest,
)

fits-new :
    (v : TrackVersion) (media : Media)
    → fits v media ≡ true
    → is_numbered v.track_id v.version_number media.versions ≡ false
unfolding fits
fits-new v media h = ground arith

cleaned :
    (v : TrackVersion) (media : Media) (removed : Bool)
    → All (λ w. w.r2_object_key ≢ v.r2_object_key) media.versions
    → IsSound media
    → All
        (λ w.
          is_stored w.r2_object_key (
            if removed then remove v.r2_object_key media.bucket else v.r2_object_key ∷ media.bucket)
          ≡ true)
        media.versions
cleaned v media true fresh s =
    all_stored-remove v.r2_object_key media.bucket media.versions fresh s.stored
cleaned v media false fresh s =
    is_stored-insert v.r2_object_key media.bucket media.versions s.stored

pub finished-IsSound :
    (outcome : Outcome) (v : TrackVersion) (media : Media)
    → All (λ w. w.r2_object_key ≢ v.r2_object_key) media.versions
    → IsSound media
    → IsSound (finished outcome v media).0
unfolding finished
finished-IsSound outcome v media fresh s = elim (Bool-cases outcome.uploaded) [
  | inr no_upload ↦ rw no_upload s
  | inl up ↦ elim (Bool-cases (outcome.committed && fits v media)) [
    | inl fit ↦
        rw (up, fit)
          (record {
            numbered = (fits-new v media (ground (arith, fit)), s.numbered);
            stored = (
              is_stored_first v.r2_object_key media.bucket,
              is_stored-insert v.r2_object_key media.bucket media.versions s.stored,
            );
          })
    | inr misfit ↦
        rw (up, misfit)
          (record { numbered = s.numbered; stored = cleaned v media outcome.removed fresh s })
  ]
]
