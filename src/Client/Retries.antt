-- ===== src/Client/Retries.antt =====
-- What the retries of client/client.go come to.
use mathlib.Core.Path.{◌∙◌, ap}
use cable.Prelude.{
  ℕ, ◌+◌, ◌≤◌, ◌≡◌, ◌⊎◌, inl, inr, Bool, true, List, [], ◌∷◌, Option, none, some, Option-cases,
  Bool-cases, leb, refl, arith,
}
use cable.Prelude.Words.{ℤ, pos}
use cable.Errors.{Error}
use cable.Packet.Types.{Identity, Packet, new_connect}
use cable.Client.Retrier
use cable.Client.Retrier.{Retrier, is_used_up, take_turn}
use cable.Client.Connection.{
  Status, closed, opened, opening, closing, status_number, is_status, Conn, Client, enter,
  set_status, answer, read_answer, write_connect, reconnect, try_close, retried, on_timer,
}

-- The number of tries that a sequence of failures is granted.
unfoldable pub granted : Option ℤ → ℕ
granted none = 0
granted (some _) = 1

unfoldable pub turns : List Error → Retrier → ℕ
turns [] r = 0
turns (e ∷ es) r = granted (Retrier.retry e r).0 + turns es (Retrier.retry e r).1

take_turn_step :
    (r : Retrier) (n : ℕ)
    → r.limit ≡ pos n
    → r.count ≤ n
    → ((take_turn r).1.limit ≡ pos n)
      × ((take_turn r).1.count ≤ n)
      × (granted (take_turn r).0 + r.count ≡ (take_turn r).1.count)
unfolding take_turn is_used_up granted
take_turn_step r n e h = elim (Bool-cases (leb n r.count)) [
  | inl u ↦ rw (take_turn, is_used_up, e, u) (refl, h, omega arith)
  | inr u ↦ rw (take_turn, is_used_up, e, u) (refl, ground arith, omega arith)
]

retry_step :
    (x : Error) (r : Retrier) (n : ℕ)
    → r.limit ≡ pos n
    → r.count ≤ n
    → ((Retrier.retry x r).1.limit ≡ pos n)
      × ((Retrier.retry x r).1.count ≤ n)
      × (granted (Retrier.retry x r).0 + r.count ≡ (Retrier.retry x r).1.count)
unfolding Retrier.retry granted
retry_step x r n e h = elim (Option-cases r.filter) [
  | inl f ↦ rw (Retrier.retry, f) (take_turn_step r n e h)
  | inr (f, g) ↦ elim (Bool-cases (f x)) [
    | inl b ↦ rw (Retrier.retry, g, b) (e, h, omega arith)
    | inr b ↦ rw (Retrier.retry, g, b) (take_turn_step r n e h)
  ]
]

-- However many failures follow one another, with whatever reasons, `Retry` grants no more tries than
-- the limit leaves over the count so far.
pub turns_bound :
    (es : List Error) (r : Retrier) (n : ℕ)
    → r.limit ≡ pos n
    → r.count ≤ n
    → turns es r + r.count ≤ n
unfolding turns
turns_bound [] r n e h = omega arith
turns_bound (x ∷ es) r n e h =
    let (e', h', step) = retry_step x r n e h in
    omega (arith, turns_bound es (Retrier.retry x r).1 n e' h')

module _ {W : Type 0} (lib : Conn W) where
  enter-opened :
      (c : Client W)
      → ((enter lib opened c).status ≡ opened) × ((enter lib opened c).retrying ≡ c.retrying)
  unfolding enter
  enter-opened c = (refl, refl)

  same_opened : (s : Status) → is_status s opened ≡ true → s ≡ opened
  unfolding is_status status_number
  same_opened Status.unknown e = cc
  same_opened closed e = cc
  same_opened opened e = refl
  same_opened opening e = cc
  same_opened closing e = cc

  set_opened :
      (c : Client W)
      → ((set_status lib opened c).status ≡ opened)
        × ((set_status lib opened c).retrying ≡ c.retrying)
  unfolding set_status
  set_opened c = elim (Bool-cases (is_status c.status opened)) [
    | inl e ↦ rw (set_status, e) (same_opened c.status e, refl)
    | inr e ↦ rw (set_status, e) (enter-opened c)
  ]

  -- A result without an error is an opened client.
  IsOpened : Bool → Option Error × Client W → Type 0
  IsOpened b r = r.0 ≡ none → (r.1.status ≡ opened) × (r.1.retrying ≡ b)

  none_some : {A : Type 0} (e : Error) → some e ≡ none → A
  none_some e h = cc

  sum_cases : {A B : Type 0} (x : A ⊎ B) → ((a : A) × (x ≡ inl a)) ⊎ ((b : B) × (x ≡ inr b))
  sum_cases (inl a) = inl (a, refl)
  sum_cases (inr b) = inr (b, refl)

  read_answer-IsOpened : (c : Client W) → IsOpened c.retrying (read_answer lib c)
  unfolding IsOpened read_answer
  read_answer-IsOpened c h = elim (sum_cases (lib.read_packet c.conn).0) [
    | inl (e, p) ↦ none_some e (rw (read_answer, p) at h)
    | inr (q, p) ↦ elim (Option-cases (answer lib q)) [
      | inl a ↦ rw (read_answer, p, a) (set_opened (record c { conn = (lib.read_packet c.conn).1 }))
      | inr (e, a) ↦ none_some e (rw (read_answer, p, a) at h)
    ]
  ]

  write_connect-IsOpened :
      (id : Identity) (c : Client W) → IsOpened c.retrying (write_connect lib id c)
  unfolding IsOpened write_connect
  write_connect-IsOpened id c h =
      let (failed, w) = lib.write_packet (Packet.connect (new_connect id)) c.conn in
      elim (Option-cases failed) [
        | inl p ↦
            rw (write_connect, p)
              (read_answer-IsOpened (record c { conn = w }) (rw (write_connect, p) at h))
        | inr (e, p) ↦ none_some e (rw (write_connect, p) at h)
      ]

  reconnect-IsOpened : (id : Identity) (c : Client W) → IsOpened c.retrying (reconnect lib id c)
  unfolding IsOpened reconnect
  reconnect-IsOpened id c h =
      let (failed, w) = lib.dail c.conn in
      elim (Option-cases failed) [
        | inl p ↦
            rw (reconnect, p)
              (write_connect-IsOpened id (record c { conn = w }) (rw (reconnect, p) at h))
        | inr (e, p) ↦ none_some e (rw (reconnect, p) at h)
      ]

  retried-none : (r : Option Error × Client W) → r.0 ≡ none → retried lib r ≡ r.1
  unfolding retried
  retried-none (none, c) h = refl
  retried-none (some e, c) h = none_some e h

  ignores : (d : Client W) (x : Error) → d.retrying ≡ true → try_close lib x d ≡ d
  unfolding try_close
  ignores d x h = rw (try_close, h) refl

  -- An opening client, with `retrying` set, whose `reconnect` succeeds when the timer fires is opened,
  -- and `tryClose` does nothing on it, whatever the error is: `retrying` has not been reset.
  pub try_close-on_timer :
      (id : Identity) (c : Client W) (e : Error)
      → c.status ≡ opening
      → c.retrying ≡ true
      → (reconnect lib id c).0 ≡ none
      → ((on_timer lib id c).status ≡ opened)
        × (try_close lib e (on_timer lib id c) ≡ on_timer lib id c)
  unfolding on_timer is_status status_number IsOpened
  try_close-on_timer id c e starts busy succeeds =
      let (is_open, same) = reconnect-IsOpened id c succeeds in
      let is_opening : is_status c.status opening ≡ true =
        ap (λ (s : Status). is_status s opening) starts in
      let fired : on_timer lib id c ≡ (reconnect lib id c).1 =
        rw (on_timer, is_opening) (retried-none (reconnect lib id c) succeeds) in
      rw fired (is_open, ignores (reconnect lib id c).1 e (same ∙ busy))
