-- ===== src/Account/Rotation.antt =====
-- sdk/ts/src/account.ts: the order in which `request` tries the hosts.
use skyext.Account.{Account, Text, HttpRequest, Fetched, build, usable, try_hosts, request}
use skyext.Prelude.{
  ℕ, zero, suc, ◌+◌, ◌-◌, ◌%◌, ◌≤◌, ◌<◌, ◌≡◌, sym, ◌∙◌, ap, String, Option, none, some, List, [],
  ◌∷◌, ◌++◌, arith, length, length-append, get_or, take, drop, get_or-drop-append, get_or-take,
  get_or-append_right, length-drop, length-take_of_le, drop-get_or, drop_all, Option-cases, inl,
  inr, dec_lt,
}
use skyext.Value.{Value, Fields}

-- The hosts from the `start`-th on, and then those before it.
abbrev pub rotate : ℕ → List Text → List Text
rotate start hosts = drop start hosts ++ take start hosts

length-rotate :
    (s : ℕ) (hosts : List Text) → s ≤ length hosts → length (rotate s hosts) ≡ length hosts
length-rotate s hosts h = omega (
  arith,
  length-append (drop s hosts) (take s hosts),
  length-drop s hosts,
  length-take_of_le s hosts h,
)

-- The host of round `i`, `hosts[(start + i) % n]`, is the `i`-th of the rotated hosts.
get_or-rotate :
    (s i : ℕ) (hosts : List Text) (d : Text)
    → s < length hosts
    → i < length hosts
    → get_or (rotate s hosts) i d ≡ get_or hosts ((s + i) % length hosts) d
get_or-rotate s i hosts d hs hi = elim (dec_lt (s + i) (length hosts)) [
  | yes below ↦
      let e : (s + i) % length hosts ≡ s + i = grind arith in
      rw (e, get_or-drop-append s i hosts (take s hosts) d below)
  | no over ↦
      let j = s + i - length hosts in
      let e : (s + i) % length hosts ≡ j = grind arith in
      let k : i ≡ length (drop s hosts) + j = omega (arith, length-drop s hosts) in
      ap (λ t. get_or (rotate s hosts) t d) k
      ∙ (get_or-append_right (drop s hosts) (take s hosts) j d
          ∙ (get_or-take s j hosts d (omega arith) (omega arith)
              ∙ sym (ap (λ t. get_or hosts t d) e)))
]

module _ (fetch : List HttpRequest → HttpRequest → Fetched) (parse_json : Text → Option Value)
    (encode_uri : Text → Text) where
  -- The specification: the hosts of a list are asked in turn, up to the first usable answer. The
  -- history afterwards, and the answer.
  unfoldable pub ask :
      (Text → HttpRequest) → List Text → List HttpRequest → List HttpRequest × Option Value
  ask make [] history = (history, none)
  ask make (host ∷ hosts) history = elim (usable parse_json (fetch history (make host))) [
    | none ↦ ask make hosts (make host ∷ history)
    | some v ↦ (make host ∷ history, some v)
  ]

  asked : (make : Text → HttpRequest) (hosts : List Text) (a : Account) → Account × Option Value
  asked make hosts a = let w = ask make hosts a.history in (record a { history = w.0 }, w.1)

  try_hosts-ask :
      (k i start : ℕ) (make : Text → HttpRequest) (a : Account)
      → k + i ≡ length a.hosts
      → start < length a.hosts
      → try_hosts fetch parse_json encode_uri k i start make a
        ≡ asked make (drop i (rotate start a.hosts)) a
  unfolding try_hosts ask asked
  try_hosts-ask zero i start make a e h =
      rw (drop_all i (rotate start a.hosts) (omega (arith, length-rotate start a.hosts)))
  try_hosts-ask (suc k) i start make a e h =
      let r = make (get_or a.hosts ((start + i) % length a.hosts) []) in
      rw
        (
          drop-get_or i (rotate start a.hosts) [] (omega (arith, length-rotate start a.hosts)),
          get_or-rotate start i a.hosts [] h (omega arith),
        )
        (elim (Option-cases (usable parse_json (fetch a.history r))) [
          | inl none_yet ↦
              rw (none_yet, try_hosts, ask)
                (try_hosts-ask k (suc i) start make (record a { history = r ∷ a.history })
                  (omega arith) h)
          | inr (v, found) ↦ rw (found, try_hosts, ask)
        ])

  -- Where the cursor is one of the hosts' places, `request` asks the hosts in turn from the cursor on,
  -- wrapping round once, up to the first usable answer, which it returns (none if no host gives
  -- one); each call moves the cursor on by one place, and it stays a place.
  pub request-ask :
      (method : String) (path : Text) (token : Option Text) (body : Option Fields) (a : Account)
      → a.cursor < length a.hosts
      → let w = ask (build method path token body) (rotate a.cursor a.hosts) a.history in
        let next = (a.cursor + 1) % length a.hosts in
        (request fetch parse_json encode_uri method path token body a
          ≡ (record a { cursor = next; history = w.0 }, w.1))
        × (next < length a.hosts)
  unfolding request asked
  request-ask method path token body a h = (
    try_hosts-ask (length a.hosts) 0 a.cursor (build method path token body)
        (record a { cursor = (a.cursor + 1) % length a.hosts }) (omega arith) h,
    grind arith,
  )
