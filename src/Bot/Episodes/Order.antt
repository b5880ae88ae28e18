-- ===== src/Bot/Episodes/Order.antt =====
-- The episodes of a season's files.
use streamly.Prelude.{
  ℕ, zero, suc, ◌+◌, ◌<◌, List, [], ◌∷◌, if_split, All, All-map, take, ltb, ◌==◌, ==_iff, arith,
}
use streamly.Prelude.Signed.{ltb_ℤ}
use streamly.Media.Qualities.{stream_file_preference}
use streamly.Bot.Episodes.{
  FebboxFile, Episode, put_episode, with_number, by_number, max_options, to_episodes,
}
use streamly.Bot.Numbers.{episode_number}

abbrev pub IsAscending : List Episode → Type 0
IsAscending [] = Unit
IsAscending (e ∷ l) = All (λ f. e.number < f.number) l × IsAscending l

put_episode-All :
    (P : ℕ → Type 0) (e : Episode) (l : List Episode)
    → P e.number
    → All (λ f. P f.number) l
    → All (λ f. P f.number) (put_episode e l)
unfolding put_episode
put_episode-All P e [] p h = (p, record {})
put_episode-All P e (f ∷ l) p h =
    if_split (All (λ g. P g.number)) (f.number == e.number)
      (λ _.
        if_split (All (λ g. P g.number))
          (ltb_ℤ (stream_file_preference f.file_name) (stream_file_preference e.file_name))
          (λ _. (p, h.1)) (λ _. h))
      (λ _.
        if_split (All (λ g. P g.number)) (ltb f.number e.number)
          (λ _. (h.0, put_episode-All P e l p h.1)) (λ _. (p, h)))

put_episode-IsAscending :
    (e : Episode) (l : List Episode) → IsAscending l → IsAscending (put_episode e l)
unfolding put_episode
put_episode-IsAscending e [] h = (record {}, record {})
put_episode-IsAscending e (f ∷ l) h =
    if_split IsAscending (f.number == e.number)
      (λ same.
        if_split IsAscending
          (ltb_ℤ (stream_file_preference f.file_name) (stream_file_preference e.file_name))
          (λ _. (All-map (λ g lt. omega (arith, lt, (==_iff f.number e.number).0 same)) l h.0, h.1))
          (λ _. h))
      (λ differs.
        if_split IsAscending (ltb f.number e.number)
          (λ less. (
            put_episode-All (λ n. f.number < n) e l (ground (arith, less)) h.0,
            put_episode-IsAscending e l h.1,
          ))
          (λ not_less.
            let below : e.number < f.number = ground (arith, differs, not_less) in
            ((below, All-map (λ g lt. omega (arith, lt, below)) l h.0), h)))

by_number-IsAscending :
    (fallback : ℕ) (l : List Episode) (files : List FebboxFile)
    → IsAscending l
    → IsAscending (by_number fallback l files)
unfolding by_number
by_number-IsAscending fallback l [] h = h
by_number-IsAscending fallback l (f ∷ files) h =
    let n = episode_number f.file_name in
    if_split IsAscending (n == 0)
      (λ _.
        by_number-IsAscending (fallback + 1) (put_episode (with_number f (fallback + 1)) l) files
          (put_episode-IsAscending (with_number f (fallback + 1)) l h))
      (λ _.
        by_number-IsAscending fallback (put_episode (with_number f n) l) files
          (put_episode-IsAscending (with_number f n) l h))

take-All : (P : Episode → Type 0) (n : ℕ) (l : List Episode) → All P l → All P (take n l)
take-All P zero l h = record {}
take-All P (suc n) [] h = h
take-All P (suc n) (e ∷ l) h = (h.0, take-All P n l h.1)

take-IsAscending : (n : ℕ) (l : List Episode) → IsAscending l → IsAscending (take n l)
take-IsAscending zero l h = record {}
take-IsAscending (suc n) [] h = h
take-IsAscending (suc n) (e ∷ l) h =
    (take-All (λ f. e.number < f.number) n l h.0, take-IsAscending n l h.1)

-- The episodes that are made of files come in the order of their numbers, no two with the same one.
to_episodes-IsAscending : (files : List FebboxFile) → IsAscending (to_episodes files)
unfolding to_episodes
to_episodes-IsAscending files =
    take-IsAscending max_options (by_number 0 [] files)
      (by_number-IsAscending 0 [] files (record {}))
