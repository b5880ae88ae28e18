-- ===== src/Captions/Fetch/First.antt =====
-- Which download, and which provider, decides.
use streamly.Prelude.{◌≡◌, ◌⊎◌, true, Option, none, some, List, [], ◌∷◌, ◌++◌, All}
use streamly.Prelude.Text.{Text}
use streamly.Captions.SubDl.Resolve.{Query, Error, Resolved, paths, failed}
use streamly.Captions.Subtitle.{Bytes, ok, err, is_english}
use streamly.Captions.Fetch.{Fetched, error, SubDlClient, payload_of, last_failure, written}

-- A path that gives no payload, with the reason.
abbrev pub Fails : SubDlClient → Query → Text → Type 0
Fails c q path = (e : Error) × (payload_of c q path ≡ err e)

abbrev pub last_error : SubDlClient → Query → Option Error → List Text → Option Error
last_error c q last [] = last
last_error c q last (path ∷ l) = elim (payload_of c q path) as (λ _. Option Error) [
  | err e ↦ last_error c q (some e) l
  | ok payload ↦ last_error c q last l
]

-- The first path with a payload, which is English, is the one that is written.
abbrev pub IsFirst : SubDlClient → Query → List Text → Fetched → Type 0
IsFirst c q l r =
    (before : List Text) × (path : Text) × (after : List Text) × (payload : Bytes) × ((l
        ≡ before ++ (path ∷ after))
      × (All (Fails c q) before
          × ((payload_of c q path ≡ ok payload)
              × ((is_english c.library payload ≡ true) × (r ≡ written (c.write payload))))))

abbrev IsDownloadedFrom : SubDlClient → Query → Option Error → List Text → Fetched → Type 0
IsDownloadedFrom c q last l r =
    IsFirst c q l r ⊎ (All (Fails c q) l × (r ≡ last_failure (last_error c q last l)))

-- What `Download` comes to.
abbrev pub IsDownloaded : SubDlClient → Query → Resolved → Fetched → Type 0
IsDownloaded c q (failed e) r = r ≡ error e
IsDownloaded c q (paths l) r = IsDownloadedFrom c q none l r
