-- ===== src/Captions/Language.antt =====
-- internal/captions/language.go, as far as it is about names and tags of languages.
use streamly.Prelude.{ℕ, Bool, true, false, ◌&&◌, ◌||◌, List, [], ◌∷◌, map, if◌then◌else◌, ◌==◌}
use streamly.Prelude.Text.{Text, codes, is_empty, contains, to_lower, trim_space}
use streamly.Media.Qualities.{mem_text}

abbrev pub foreign_subtitle_tokens : List Text
foreign_subtitle_tokens = map codes (
    ".ar."
    ∷ ("_ar_"
        ∷ (".ara."
            ∷ (".arabic."
                ∷ (".fr."
                    ∷ ("_fr_"
                        ∷ (".fre."
                            ∷ (".french."
                                ∷ (".es."
                                    ∷ ("_es_"
                                        ∷ (".spa."
                                            ∷ (".spanish."
                                                ∷ (".de."
                                                    ∷ ("_de_"
                                                        ∷ (".ger."
                                                            ∷ (".german."
                                                            ∷ (".it."
                                                            ∷ ("_it_"
                                                            ∷ (".ita."
                                                            ∷ (".italian."
                                                            ∷ (".pt."
                                                            ∷ ("_pt_"
                                                            ∷ (".por."
                                                            ∷ (".portuguese."
                                                            ∷ (".ru."
                                                            ∷ ("_ru_"
                                                            ∷ (".rus."
                                                            ∷ (".russian."
                                                            ∷ (".tr."
                                                            ∷ ("_tr_"
                                                            ∷ (".tur."
                                                            ∷ (".turkish."
                                                            ∷ (".pl."
                                                            ∷ ("_pl_"
                                                            ∷ (".pol."
                                                            ∷ (".polish."
                                                            ∷ (".nl."
                                                            ∷ ("_nl_"
                                                            ∷ (".dut."
                                                            ∷ (".dutch."
                                                            ∷ (".sv."
                                                            ∷ ("_sv_"
                                                            ∷ (".swe."
                                                            ∷ (".swedish."
                                                            ∷ (".no."
                                                            ∷ ("_no_"
                                                            ∷ (".nor."
                                                            ∷ (".norwegian."
                                                            ∷ (".da."
                                                            ∷ ("_da_"
                                                            ∷ (".dan."
                                                            ∷ (".danish."
                                                            ∷ (".fi."
                                                            ∷ ("_fi_"
                                                            ∷ (".fin."
                                                            ∷ (".finnish."
                                                            ∷ (".el."
                                                            ∷ ("_el_"
                                                            ∷ (".gre."
                                                            ∷ (".greek."
                                                            ∷ (".he."
                                                            ∷ ("_he_"
                                                            ∷ (".heb."
                                                            ∷ (".hebrew."
                                                            ∷ (".fa."
                                                            ∷ ("_fa_"
                                                            ∷ (".per."
                                                            ∷ (".persian."
                                                            ∷ (".hin."
                                                            ∷ (".hindi."
                                                            ∷ (".ja."
                                                            ∷ ("_ja_"
                                                            ∷ (".jpn."
                                                            ∷ (".japanese."
                                                            ∷ (".ko."
                                                            ∷ ("_ko_"
                                                            ∷ (".kor."
                                                            ∷ (".korean."
                                                            ∷ (".zh."
                                                            ∷ ("_zh_"
                                                            ∷ (".chi."
                                                            ∷ (".chinese."
                                                            ∷ (".vi."
                                                            ∷ ("_vi_"
                                                            ∷ (".vie."
                                                            ∷ (".vietnamese."
                                                            ∷ (".th."
                                                            ∷ ("_th_"
                                                            ∷ (".tha."
                                                            ∷ (".thai."
                                                            ∷ (".uk."
                                                            ∷ ("_uk_"
                                                            ∷ (".ukr."
                                                            ∷ (".ukrainian."
                                                            ∷ (".cs."
                                                            ∷ ("_cs_"
                                                            ∷ (".cze."
                                                            ∷ (".czech."
                                                            ∷ (".ro."
                                                            ∷ ("_ro_"
                                                            ∷ (".rum."
                                                            ∷ (".romanian."
                                                            ∷ (".hu."
                                                            ∷ ("_hu_"
                                                            ∷ (".hun."
                                                            ∷ (".hungarian."
                                                            ∷ (".bg."
                                                            ∷ ("_bg_"
                                                            ∷ (".bul." ∷ (".bulgarian." ∷ []))))))))
                                                            ))))))))))))))))))))))))))))))))))))))))
                                                            ))))))))))))))))))))))))))))))))))))))))
                                                            ))))))))))))))))))))))

unfoldable pub contains_any : Text → List Text → Bool
contains_any t [] = false
contains_any t (w ∷ l) = contains t w || contains_any t l

unfoldable pub has_foreign_language_name : Text → Bool
unfolding contains_any
has_foreign_language_name name = contains_any (to_lower name) foreign_subtitle_tokens

-- `strings.Trim(t, c)`.
abbrev pub trim_start : ℕ → Text → Text
trim_start c [] = []
trim_start c (x ∷ t) = let rest = trim_start c t in if x == c then rest else x ∷ t

abbrev pub trim_end : ℕ → Text → Text
trim_end c [] = []
trim_end c (x ∷ t) = let rest = trim_end c t in if x == c && is_empty rest then [] else x ∷ rest

abbrev pub trim : ℕ → Text → Text
trim c t = trim_end c (trim_start c t)

abbrev pub english_tags : List Text
english_tags =
    map codes ("en" ∷ ("eng" ∷ ("english" ∷ ("en-us" ∷ ("en-gb" ∷ ("en_us" ∷ ("en_gb" ∷ [])))))))

unfoldable pub looks_english_language_tag : Text → Bool
unfolding contains_any
looks_english_language_tag tag =
    let language = to_lower (trim_space tag) in
    if is_empty language
    then true
    else if mem_text language english_tags
    then true
    else if contains_any language
        (map (λ token. trim b'_' (trim b'.' token)) foreign_subtitle_tokens)
    then false
    else false
