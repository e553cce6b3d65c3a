-- ===== src/Client/Gateways.antt =====
-- sdk/ts/src/client.ts: the gateways that a session is given over its reconnect cycles.
use skyext.Client.{choose, fresh_urls, gate_list, resolve_endpoints}
use skyext.Prelude.{◌≡◌, ◌≢◌, refl, Option, none, some, List, [], ◌∷◌, ◌∙◌, ap}
use skyext.Value.{Value, Items}

-- The specification: the addresses of the last answer that had any.
abbrev pub newer : Option (List Value) → List Value → List Value
newer (some (u ∷ us)) known = u ∷ us
newer _ known = known

unfoldable pub last_known : List (Option Items) → List Value → List Value
last_known [] known = known
last_known (g ∷ gs) known = last_known gs (newer (fresh_urls (gate_list g)) known)

-- The cache after a cycle for each of the answers.
unfoldable pub cache_after : List (Option Items) → List Value → List Value
cache_after [] cached = cached
cache_after (g ∷ gs) cached = cache_after gs (resolve_endpoints g cached).1

choose-newer :
    (f : Option (List Value)) (cached : List Value) → (choose f cached).1 ≡ newer f cached
unfolding choose
choose-newer none cached = refl
choose-newer (some (u ∷ us)) cached = refl
choose-newer (some []) [] = refl
choose-newer (some []) (u ∷ us) = refl

cache_after-last_known :
    (gs : List (Option Items)) (cached : List Value) → cache_after gs cached ≡ last_known gs cached
unfolding cache_after last_known resolve_endpoints
cache_after-last_known [] cached = refl
cache_after-last_known (g ∷ gs) cached =
    ap (cache_after gs) (choose-newer (fresh_urls (gate_list g)) cached)
    ∙ cache_after-last_known gs (newer (fresh_urls (gate_list g)) cached)

-- What a result says of the known addresses.
abbrev pub Serves : Option (List Value) → List Value → Type 0
Serves (some urls) known = (urls ≡ known) × (known ≢ [])
Serves none known = known ≡ []

choose-Serves :
    (urls cached : List Value) → Serves (choose (some urls) cached).0 (newer (some urls) cached)
unfolding choose
choose-Serves (u ∷ us) cached = (refl, λ e. cc)
choose-Serves [] [] = refl
choose-Serves [] (u ∷ us) = (refl, λ e. cc)

-- After any answers of the account, a cycle whose gateways can be read gives the session the
-- addresses of the last answer that had any, never an empty list, and fails only if no answer had.
pub resolve_endpoints-last_known :
    (gs : List (Option Items)) (g : Option Items) (urls : List Value)
    → fresh_urls (gate_list g) ≡ some urls
    → Serves (resolve_endpoints g (cache_after gs [])).0 (newer (some urls) (last_known gs []))
unfolding resolve_endpoints
resolve_endpoints-last_known gs g urls e =
    rw (e, cache_after-last_known gs []) (choose-Serves urls (last_known gs []))
