-- ===== src/Bot/Episodes/Folders.antt =====
-- What the next episode is to be, and what a season's folder is.
use mathlib.Core.Path.{subst}
use streamly.Prelude.{
  ℕ, ◌+◌, ◌≡◌, ◌≢◌, false, ◌⊎◌, inl, inr, refl, true, false, some, List, [], ◌∷◌, if_split, Any,
  All, All-map, arith,
}
use streamly.Prelude.Signed.{ℤ, pos, negsuc, ◌+ℤ◌, ◌<ℤ◌, eq_ℤ, wrap64}
use streamly.Bot.AutoNext.{AutoNextContext, NextEpisode}
use streamly.Bot.Episodes.{
  FebboxFile, Episode, Resolver, SeasonEntry, to_episodes, files_of, seasons_of, Next, next_is,
  no_next, list_failed, next_of, numbered_after, season_folder, is_nil, season_entries,
}
use streamly.Prelude.Signed.{eq_ℤ-eq}
use streamly.Bot.Numbers.{season_number}

-- An episode of the files, as the next one.
abbrev pub IsEpisodeOf : ℤ → List FebboxFile → NextEpisode → Type 0
IsEpisodeOf season files n = Any (λ e. n ≡ next_of season e) (to_episodes files)

-- A folder of the season: the number in its name, or, without one, its place in the list.
abbrev pub IsSeasonFolder : ℕ → List FebboxFile → ℤ → ℤ → Type 0
IsSeasonFolder index [] season fid = ⊥
IsSeasonFolder index (f ∷ l) season fid =
    ((f.fid ≡ fid) × (pos (season_number f.file_name (index + 1)) ≡ season))
    ⊎ IsSeasonFolder (index + 1) l season fid

-- The first such folder of the list.
abbrev pub IsFirstFolder : ℕ → List FebboxFile → ℤ → ℤ → Type 0
IsFirstFolder index [] season fid = ⊥
IsFirstFolder index (f ∷ l) season fid =
    ((f.fid ≡ fid) × (pos (season_number f.file_name (index + 1)) ≡ season))
    ⊎ ((pos (season_number f.file_name (index + 1)) ≢ season)
        × IsFirstFolder (index + 1) l season fid)

-- The first folder of the season, if there is one with an id, has been listed, and no episode of it
-- has the number.
abbrev pub IsOver : Resolver → List FebboxFile → ℤ → ℤ → Type 0
IsOver r seasons season number =
    (fid : ℤ)
    → IsFirstFolder 0 seasons season fid
    → fid ≢ pos 0
    → (children : List FebboxFile) × ((r.list_children fid ≡ some children)
        × All (λ e. pos e.number ≢ number) (to_episodes (files_of r children)))

-- The first episode of a list of files.
abbrev pub IsFirstEpisodeOf : ℤ → List FebboxFile → NextEpisode → Type 0
IsFirstEpisodeOf season files n =
    (e : Episode) × ((l : List Episode) × ((to_episodes files ≡ e ∷ l) × (n ≡ next_of season e)))

-- An episode of the listing of the first folder of a season.
abbrev pub IsInFolder : Resolver → List FebboxFile → ℤ → NextEpisode → Type 0
IsInFolder r seasons season n =
    (fid : ℤ) × ((children : List FebboxFile) × (IsFirstFolder 0 seasons season fid
        × ((r.list_children fid ≡ some children) × IsEpisodeOf season (files_of r children) n)))

-- The first episode of the listing of a folder of a season.
abbrev pub StartsFolder : Resolver → List FebboxFile → ℤ → NextEpisode → Type 0
StartsFolder r seasons season n =
    (fid : ℤ) × ((children : List FebboxFile) × (IsSeasonFolder 0 seasons season fid
        × ((r.list_children fid ≡ some children)
            × IsFirstEpisodeOf season (files_of r children) n)))

-- The one numbered one more, of a list without seasons or in the folder of the season of now; or,
-- if that is over, the first one of a folder of a later season.
abbrev pub IsNextOf : Resolver → AutoNextContext → NextEpisode → Type 0
IsNextOf r auto n =
    let number = wrap64 (auto.episode +ℤ pos 1) in
    (root : List FebboxFile) × ((r.list_children (pos 0) ≡ some root)
      × (((n.episode ≡ number)
            × ((seasons_of r root ≡ []) × IsEpisodeOf (pos 1) (files_of r root) n))
          ⊎ (((n.episode ≡ number) × IsInFolder r (seasons_of r root) auto.season n)
              ⊎ (IsOver r (seasons_of r root) auto.season number
                  × ((season : ℕ) × ((auto.season <ℤ pos season)
                        × StartsFolder r (seasons_of r root) (pos season) n))))))

-- A property of the episode that is next, if one is.
abbrev pub OfNext : (NextEpisode → Type 0) → Next → Type 0
OfNext P (next_is n) = P n
OfNext P no_next = Unit
OfNext P list_failed = Unit

pub numbered_after-next :
    (season episode : ℤ) (l : List Episode)
    → OfNext
        (λ n. (n.episode ≡ wrap64 (episode +ℤ pos 1)) × Any (λ e. n ≡ next_of season e) l)
        (numbered_after season episode l)
unfolding numbered_after
numbered_after-next season episode [] = record {}
numbered_after-next season episode (e ∷ l) =
    if_split {A = Next}
      (OfNext
        (λ n. (n.episode ≡ wrap64 (episode +ℤ pos 1)) × Any (λ e'. n ≡ next_of season e') (e ∷ l)))
      (eq_ℤ (pos e.number) (wrap64 (episode +ℤ pos 1)))
      (λ same. (eq_ℤ-eq (pos e.number) (wrap64 (episode +ℤ pos 1)) same, inl refl))
      (λ _. later (numbered_after season episode l) (numbered_after-next season episode l))
  where
    later :
        (x : Next)
        → OfNext
            (λ n. (n.episode ≡ wrap64 (episode +ℤ pos 1)) × Any (λ e'. n ≡ next_of season e') l)
            x
        → OfNext
            (λ n.
              (n.episode ≡ wrap64 (episode +ℤ pos 1)) × Any (λ e'. n ≡ next_of season e') (e ∷ l))
            x
    later (next_is n) h = (h.0, inr h.1)
    later no_next h = h
    later list_failed h = h

eq_ℤ-refl : (a : ℤ) → eq_ℤ a a ≡ true
eq_ℤ-refl (pos n) = ground arith
eq_ℤ-refl (negsuc n) = ground arith

ne_of : (a b : ℤ) → eq_ℤ a b ≡ false → a ≢ b
ne_of a b e f =
    let same : eq_ℤ a b ≡ true = subst (λ x. eq_ℤ a x ≡ true) f (eq_ℤ-refl a) in cc (e, same)

pub numbered_after-none :
    (season episode : ℤ) (l : List Episode)
    → numbered_after season episode l ≡ no_next
    → All (λ e. pos e.number ≢ wrap64 (episode +ℤ pos 1)) l
unfolding numbered_after
numbered_after-none season episode [] = λ h. record {}
numbered_after-none season episode (e ∷ l) =
    if_split {A = Next}
      (λ x. x ≡ no_next → All (λ e. pos e.number ≢ wrap64 (episode +ℤ pos 1)) (e ∷ l))
      (eq_ℤ (pos e.number) (wrap64 (episode +ℤ pos 1))) (λ _ h. absurd (cc h))
      (λ other h. (
        ne_of (pos e.number) (wrap64 (episode +ℤ pos 1)) other,
        numbered_after-none season episode l h,
      ))

pub OfNext-map :
    {P Q : NextEpisode → Type 0}
    → ((n : NextEpisode) → P n → Q n)
    → (x : Next) → OfNext P x
    → OfNext Q x
OfNext-map f (next_is n) h = f n h
OfNext-map f no_next h = h
OfNext-map f list_failed h = h

-- The folder found is one of the season, or none is.
pub season_folder-IsFirstFolder :
    (index : ℕ) (l : List FebboxFile) (season : ℤ)
    → let (fid, number) = season_folder index l season in
      (eq_ℤ fid (pos 0) ≡ true) ⊎ ((number ≡ season) × IsFirstFolder index l season fid)
unfolding season_folder
season_folder-IsFirstFolder index [] season = inl refl
season_folder-IsFirstFolder index (f ∷ l) season =
    if_split {A = ℤ × ℤ}
      (λ x. (eq_ℤ x.0 (pos 0) ≡ true) ⊎ ((x.1 ≡ season) × IsFirstFolder index (f ∷ l) season x.0))
      (eq_ℤ (pos (season_number f.file_name (index + 1))) season)
      (λ e.
        let same : _ = eq_ℤ-eq (pos (season_number f.file_name (index + 1))) season e in
        inr (same, inl (refl, same)))
      (λ other. elim (season_folder-IsFirstFolder (index + 1) l season) [
        | inl e ↦ inl e
        | inr (same, later) ↦
            inr
              (same, inr (ne_of (pos (season_number f.file_name (index + 1))) season other, later))
      ])

pub IsFirstFolder-season_folder :
    (index : ℕ) (l : List FebboxFile) (season fid : ℤ)
    → IsFirstFolder index l season fid
    → (season_folder index l season).0 ≡ fid
unfolding season_folder
IsFirstFolder-season_folder index [] season fid h = absurd h
IsFirstFolder-season_folder index (f ∷ l) season fid (inl (same, own)) =
    let e : eq_ℤ (pos (season_number f.file_name (index + 1))) season ≡ true =
      subst (λ x. eq_ℤ (pos (season_number f.file_name (index + 1))) x ≡ true) own
        (eq_ℤ-refl (pos (season_number f.file_name (index + 1)))) in
    rw e same
IsFirstFolder-season_folder index (f ∷ l) season fid (inr (other, h)) =
    if_split {A = ℤ × ℤ} (λ x. x.0 ≡ fid)
      (eq_ℤ (pos (season_number f.file_name (index + 1))) season)
      (λ e. absurd (other (eq_ℤ-eq (pos (season_number f.file_name (index + 1))) season e)))
      (λ _. IsFirstFolder-season_folder (index + 1) l season fid h)

abbrev pub HasFolder : List FebboxFile → ℕ → SeasonEntry → Type 0
HasFolder l index e = IsSeasonFolder index l (pos e.number) e.fid

pub season_entries-All :
    (index : ℕ) (l : List FebboxFile) → All (HasFolder l index) (season_entries index l)
unfolding season_entries
season_entries-All index [] = record {}
season_entries-All index (f ∷ l) = (
  inl (refl, refl),
  All-map (λ e h. inr h) (season_entries (index + 1) l) (season_entries-All (index + 1) l),
)

pub is_nil-eq : (l : List FebboxFile) → is_nil l ≡ true → l ≡ []
is_nil-eq [] e = refl
is_nil-eq (f ∷ l) e = cc e
