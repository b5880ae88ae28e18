-- ===== src/Streamer/Key.antt =====
-- Stream keys, internal/streamer/utils.go.
pub mod RoundTrip
use streamly.Prelude.{
  ℕ, Bool, true, false, Option, none, some, List, [], ◌∷◌, ◌++◌, if◌then◌else◌, ◌==◌,
}
use streamly.Prelude.Text.{Text, codes, eq_text}

-- `strings.Split(s, ":")`.
abbrev pub before_first : ℕ → List Text → List Text
before_first c [] = (c ∷ []) ∷ []
before_first c (part ∷ parts) = (c ∷ part) ∷ parts

unfoldable pub split : Text → List Text
split [] = [] ∷ []
split (c ∷ t) = let parts = split t in if c == b':' then [] ∷ parts else before_first c parts

pub record StreamKey : Type 0 where
  pub guild_id : Text
  pub channel_id : Text
  pub user_id : Text
  pub call : Bool

abbrev pub of_guild : List Text → Option StreamKey
of_guild (guild ∷ (channel ∷ (user ∷ more))) =
    some (record { guild_id = guild; channel_id = channel; user_id = user; call = false })
of_guild _ = none

abbrev pub of_call : List Text → Option StreamKey
of_call (channel ∷ (user ∷ more)) =
    some (record { guild_id = []; channel_id = channel; user_id = user; call = true })
of_call _ = none

-- With fewer than three parts there is an error, whatever the first one is.
abbrev pub of_parts : List Text → Option StreamKey
of_parts (kind ∷ (a ∷ (b ∷ more))) =
    if eq_text kind (codes "guild")
    then of_guild (a ∷ (b ∷ more))
    else if eq_text kind (codes "call")
    then of_call (a ∷ (b ∷ more))
    else none
of_parts _ = none

unfoldable pub parse_stream_key : Text → Option StreamKey
parse_stream_key stream_key = of_parts (split stream_key)

unfoldable pub generate_stream_key : Bool → Text → Text → Text → Text
generate_stream_key call guild_id channel_id user_id =
    if call
    then codes "call:" ++ (channel_id ++ (codes ":" ++ user_id))
    else codes "guild:" ++ (guild_id ++ (codes ":" ++ (channel_id ++ (codes ":" ++ user_id))))
