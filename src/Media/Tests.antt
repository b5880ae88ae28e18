-- ===== src/Media/Tests.antt =====
-- Four qualities of a film, one of them twice and one an HLS playlist.
use mathlib.Core.List.{Permᴰ}
use mathlib.Core.List.Permᴰ.{refl as Perm_refl}
use streamly.Prelude.{refl, if_split, List, [], ◌∷◌}
use streamly.Prelude.Text.{codes}
use streamly.Media.Qualities.{FileQuality, less, insert, slice_stable}
use streamly.Media.Qualities.Order.{slice_stable-IsAscending}
use streamly.Media.Qualities.Pick.{IsChoice, pick_quality, pick_quality-IsPicked}

abbrev qualities : List FileQuality
qualities =
    record { url = codes "http://h/b"; quality = codes "1080p"; name = codes "Film.x264.mp4" }
    ∷ (record { url = codes "http://h/a"; quality = codes "720p"; name = [] }
        ∷ (record { url = codes "http://h/l.m3u8"; quality = codes "ORG"; name = [] }
            ∷ (record { url = codes "http://h/b"; quality = codes "4K"; name = [] } ∷ [])))

insert-Permᴰ : (q : FileQuality) (l : List FileQuality) → Permᴰ (insert q l) (q ∷ l)
unfolding insert
insert-Permᴰ q [] = Perm_refl (q ∷ [])
insert-Permᴰ q (r ∷ l) =
    if_split (λ m. Permᴰ m (q ∷ (r ∷ l))) (less r q)
      (λ _. Permᴰ.trans (Permᴰ.cons refl (insert-Permᴰ q l)) (Permᴰ.swap refl refl))
      (λ _. Perm_refl (q ∷ (r ∷ l)))

slice_stable-Permᴰ : (l : List FileQuality) → Permᴰ (slice_stable l) l
unfolding slice_stable
slice_stable-Permᴰ [] = Permᴰ.nil
slice_stable-Permᴰ (q ∷ l) =
    Permᴰ.trans (insert-Permᴰ q (slice_stable l)) (Permᴰ.cons refl (slice_stable-Permᴰ l))

-- Two are as near to 900 from above; the HLS playlist is left out.
pick_quality-IsPicked_example : IsChoice 900 (pick_quality slice_stable qualities 900) qualities
pick_quality-IsPicked_example =
    pick_quality-IsPicked slice_stable slice_stable-Permᴰ slice_stable-IsAscending qualities 900
