-- ===== src/Client/Lifecycle.antt =====
-- sdk/ts/src/client.ts: one session at a time.
use skyext.Client.Entering.{in_lobby, enter_game_lem}
use skyext.Client.{
  Client, EnterGameOptions, enter_game, is_online, nonce, recv, request, reconnect, close,
}
use skyext.Prelude.{ℕ, ◌≡◌, refl, ap, sym, String, false, Option, none, some, List, [], ◌∷◌}
use skyext.Session.System.{Event, step, start, start_system}
use skyext.Session.State.{settings}
use skyext.Session.Tasks.{System}
use skyext.Value.{null, Fields}

-- What may happen to a client that has entered: a request or a reconnect of the application, or an event
-- of its session.
pub data Use : Type 0 where
  requested : String → Option Fields → Use
  reconnected : Use
  happened : Event → Use

module _ (pack : String → Option Fields → ℕ → Option (List ℕ)) where
  unfoldable pub use_client : Use → Client → Client
  unfolding request reconnect
  use_client (requested name param) c = request pack name param c
  use_client reconnected c = reconnect pack c
  use_client (happened e) c = elim c.session [
    | none ↦ c
    | some y ↦ record c { session = some (step pack (settings c.options.session) e y) }
  ]

  unfoldable pub use_all : List Use → Client → Client
  unfolding use_client
  use_all [] c = c
  use_all (u ∷ us) c = use_all us (use_client u c)

  use_client-session :
      (u : Use) (c : Client) (y : System)
      → c.session ≡ some y
      → (z : System) × ((use_client u c).session ≡ some z)
  unfolding use_client
  use_client-session (requested name param) c y h = rw h (_, refl)
  use_client-session reconnected c y h = rw h (_, refl)
  use_client-session (happened e) c y h = rw h (_, refl)

  use_all-session :
      (us : List Use) (c : Client) (y : System)
      → c.session ≡ some y
      → (z : System) × ((use_all us c).session ≡ some z)
  unfolding use_all
  use_all-session [] c y h = (y, h)
  use_all-session (u ∷ us) c y h =
      let (z, there) = use_client-session u c y h in use_all-session us (use_client u c) z there

  -- Once entered, a client refuses to enter again until it is closed, whatever requests, reconnects
  -- and events of its session there are. Closed, it shows no session, and a request does nothing; and
  -- it can enter again, with a new session and no gateways kept.
  pub enter_game-close :
      (o p : EnterGameOptions) (us : List Use) (name : String) (param : Option Fields)
      (c d : Client)
      → enter_game o c ≡ some d
      → let e = use_all us d in
        let f = (close pack e).0 in
        (enter_game p e ≡ none)
        × (is_online f ≡ false)
        × (nonce f ≡ null)
        × (recv f ≡ 0)
        × (request pack name param f ≡ f)
        × (enter_game p f ≡ some (in_lobby p f))
  unfolding enter_game request close is_online nonce recv
  enter_game-close o p us name param c d h =
      let start_ : d.session ≡ some (start start_system) =
        sym (ap (λ x. x.session) (enter_game_lem o c d h)) in
      let (z, there) = use_all-session us d (start start_system) start_ in
      (rw there, refl, refl, refl, refl, refl)
