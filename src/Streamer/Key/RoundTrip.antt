-- ===== src/Streamer/Key/RoundTrip.antt =====
-- A generated key is parsed back.
use streamly.Prelude.{
  ◌≡◌, ◌≢◌, ◌∙◌, ap, refl, Bool, true, false, some, [], ◌∷◌, ◌++◌, All, if◌then◌else◌, ◌==◌, arith,
}
use streamly.Prelude.Text.{Text, codes, eq_text}
use streamly.Streamer.Key.{split, StreamKey, of_parts, parse_stream_key, generate_stream_key}

-- An identifier, which has no colon.
abbrev pub IsId : Text → Type 0
IsId t = All (λ c. c ≢ b':') t

split-id : (t : Text) → IsId t → split t ≡ t ∷ []
unfolding split
split-id [] h = refl
split-id (c ∷ t) (n, h) =
    let other : (c == b':') ≡ false = ground (arith, n) in rw (other, split-id t h) refl

split-colon : (t rest : Text) → IsId t → split (t ++ (b':' ∷ rest)) ≡ t ∷ split rest
unfolding split
split-colon [] rest h = refl
split-colon (c ∷ t) rest (n, h) =
    let other : (c == b':') ≡ false = ground (arith, n) in rw (other, split-colon t rest h) refl

split-two : (a b : Text) → IsId a → IsId b → split (a ++ (b':' ∷ b)) ≡ a ∷ (b ∷ [])
split-two a b h k = split-colon a b h ∙ ap (◌∷◌ a) (split-id b k)

call-IsId : IsId (codes "call")
call-IsId = (
  (λ e. omega (arith, e)),
  ((λ e. omega (arith, e)), ((λ e. omega (arith, e)), ((λ e. omega (arith, e)), record {}))),
)

guild-IsId : IsId (codes "guild")
guild-IsId = (
  (λ e. omega (arith, e)),
  (
    (λ e. omega (arith, e)),
    ((λ e. omega (arith, e)), ((λ e. omega (arith, e)), ((λ e. omega (arith, e)), record {}))),
  ),
)

abbrev pub stream_key : Bool → Text → Text → Text → StreamKey
stream_key call guild channel user = record {
  guild_id = if call then [] else guild;
  channel_id = channel;
  user_id = user;
  call = call;
}

-- A stream key that is generated from identifiers without a colon is parsed back into them; that of
-- a call has no guild.
pub generate-parse :
    (call : Bool) (guild channel user : Text)
    → IsId guild
    → IsId channel
    → IsId user
    → parse_stream_key (generate_stream_key call guild channel user)
      ≡ some (stream_key call guild channel user)
unfolding parse_stream_key generate_stream_key eq_text
generate-parse true guild channel user g c u =
    let two : split (channel ++ (b':' ∷ user)) ≡ channel ∷ (user ∷ []) =
      split-two channel user c u in
    let parts : split (codes "call" ++ (b':' ∷ (channel ++ (b':' ∷ user))))
        ≡ codes "call" ∷ (channel ∷ (user ∷ [])) =
      split-colon (codes "call") (channel ++ (b':' ∷ user)) call-IsId
      ∙ ap (◌∷◌ (codes "call")) two in
    ap of_parts parts
generate-parse false guild channel user g c u =
    let two : split (channel ++ (b':' ∷ user)) ≡ channel ∷ (user ∷ []) =
      split-two channel user c u in
    let three : split (guild ++ (b':' ∷ (channel ++ (b':' ∷ user))))
        ≡ guild ∷ (channel ∷ (user ∷ [])) =
      split-colon guild (channel ++ (b':' ∷ user)) g ∙ ap (◌∷◌ guild) two in
    let parts : split (codes "guild" ++ (b':' ∷ (guild ++ (b':' ∷ (channel ++ (b':' ∷ user))))))
        ≡ codes "guild" ∷ (guild ∷ (channel ∷ (user ∷ []))) =
      split-colon (codes "guild") (guild ++ (b':' ∷ (channel ++ (b':' ∷ user)))) guild-IsId
      ∙ ap (◌∷◌ (codes "guild")) three in
    ap of_parts parts
