-- ===== src/Pool/System/Accepting.antt =====
-- The main thread's handling of a new connection, as changes of turns.
use tst.Common.{
  Bool, ltb, Option, Bool-cases, ℕ, List, refl, none, some, true, false, ◌∷◌, inl, inr, ◌≡◌, ◌==◌,
  if◌then◌else◌, ◌||◌,
}
use tst.Common.Dict.{lookup}
use tst.Pool.Types.{Socket, Events, Stat, stat_code, tst_reconnected, tst_send}
use tst.Pool.State.{Pool, Hooks, epoll_add, epoll_mod, update, call}
use tst.Pool.Connections.{addsocket}
use tst.Pool.Main.{
  accept_client, on_listen, register, admit, watch_or_close, run_connected, drop_stale,
}
use tst.Pool.Main.Sound.{KeepsDescriptor}
use tst.Pool.Turns.{Turn, silent, stay, Moves-append}
use tst.Pool.System.Live.{IsKnown}
use tst.Pool.System.{Epoll, Apart, ctl_all}
use tst.Pool.System.Changes.{Live-heap}
use tst.Pool.System.Joining.{register_new, Live-register}
use tst.Pool.System.Calls.{
  IsLive, Follows, InHand-ready, InHand-silent, call-Follows, drop-Follows, closesocket-Follows,
}

module _ (E : Epoll) {U G : Type 0} (h : Hooks U G) (kernel : E.State) where
  -- Two parts of a step, one behind the other.
  Follows-append :
      (p q : Pool U G) (pending pending' : List (ℕ × Events)) (σ : ℕ → Turn)
      → Follows E p kernel pending σ
      → ((σ' : ℕ → Turn) → IsLive E p kernel pending σ' → Follows E q kernel pending' σ')
      → Follows E q kernel pending' σ
  Follows-append p q pending pending' σ (σ', ms, v) step =
      let (σ'', ns, v') = step σ' v in (σ'', Moves-append ms ns, v')

  register-calls :
      (p : Pool U G) (sd : ℕ) → lookup sd p.connect ≡ none → (register h p sd).calls ≡ p.calls
  unfolding register addsocket
  register-calls p sd unused = rw (unused, drop_stale) refl

  watch_or_close-Follows :
      (p : Pool U G) (sd : ℕ) (next : Stat) (σ : ℕ → Turn) (pending : List (ℕ × Events))
      → IsLive E p kernel pending σ
      → σ sd ≡ silent
      → IsKnown p.sockmain p.connect sd
      → Follows E (watch_or_close h p sd next) kernel pending σ
  unfolding watch_or_close
  watch_or_close-Follows p sd next σ pending v e named =
      let mine = InHand-silent E h kernel p sd σ pending v e named in
      elim (Bool-cases (ltb (stat_code next) (stat_code tst_reconnected))) [
        | inl f ↦ rw f (
            call-Follows E h kernel p (epoll_add sd (stat_code next == stat_code tst_send)) σ
              pending pending v mine)
        | inr f ↦ rw f (closesocket-Follows E h kernel p sd σ pending pending v mine)
      ]

  admit-Follows :
      (p : Pool U G) (sd a : ℕ) (k : Option (Socket U)) (σ : ℕ → Turn) (pending : List (ℕ × Events))
      → KeepsDescriptor h
      → IsLive E p kernel pending σ
      → σ sd ≡ silent
      → p.heap a ≡ k
      → IsKnown p.sockmain p.connect sd
      → Follows E (admit h p sd a k) kernel pending σ
  unfolding admit
  admit-Follows p sd a none σ pending keep v e alive named = (σ, stay, v)
  admit-Follows p sd a (some k) σ pending keep v e alive named =
      let (k', g, next) = run_connected h k p.shared in
      watch_or_close-Follows (record p { heap = update p.heap a (some k'); shared = g }) sd next σ
        pending
        (Live-heap E p.sockmain p.connect p.heap p.next_address p.workers (ctl_all E p.calls kernel)
          pending σ a k k' v alive (keep k p.shared))
        e named

  -- What is known of a descriptor that `accept` gives.
  abbrev pub IsNew : Pool U G → List (ℕ × Events) → ℕ → Type 0
  IsNew p pending sd =
      (lookup sd p.connect ≡ none)
      × (E.is_armed (ctl_all E p.calls kernel) sd ≡ false)
      × Apart sd pending

  accept_client-Follows :
      (p : Pool U G) (sd : ℕ) (σ : ℕ → Turn) (pending : List (ℕ × Events))
      → KeepsDescriptor h
      → IsLive E p kernel pending σ
      → IsNew p pending sd
      → Follows E (accept_client h p sd) kernel pending σ
  unfolding accept_client
  accept_client-Follows p sd σ pending keep v (unused, off, apart) =
      let q = register h p sd in
      let v' = Live-register E h p (ctl_all E p.calls kernel) σ sd pending v unused in
      admit-Follows q sd p.next_address (q.heap p.next_address) σ pending keep
        (rw (register-calls p sd unused) v') (v.gone sd unused off apart) refl
        (register_new E h p (ctl_all E p.calls kernel) σ sd unused)

  pub dropped-Follows :
      (p : Pool U G) (sd : ℕ) (ev : Events) (σ : ℕ → Turn) (es : List (ℕ × Events))
      → IsLive E p kernel ((sd, ev) ∷ es) σ
      → Follows E p kernel es σ
  dropped-Follows p sd ev σ es v =
      drop-Follows E h kernel p sd σ ((sd, ev) ∷ es) es v (InHand-ready E h kernel p sd ev σ es v)

  ended-Follows :
      (p : Pool U G) (es : List (ℕ × Events)) (σ : ℕ → Turn)
      → Follows E p kernel es σ
      → (b : Bool) → Follows E (if b then record p { main_run = false } else p) kernel es σ
  ended-Follows p es σ done true = done
  ended-Follows p es σ done false = done

  pub on_listen-Follows :
      (p : Pool U G) (sd : ℕ) (ev : Events) (accepted : Option ℕ) (σ : ℕ → Turn)
      (es : List (ℕ × Events))
      → KeepsDescriptor h
      → IsLive E p kernel ((sd, ev) ∷ es) σ
      → ((client : ℕ) → accepted ≡ some client → IsNew p ((sd, ev) ∷ es) client)
      → Follows E (on_listen h p sd ev accepted) kernel es σ
  unfolding on_listen
  on_listen-Follows p sd ev none σ es keep v new =
      let done = dropped-Follows p sd ev σ es v in
      elim (Bool-cases ev.epollin) [
        | inl e ↦ rw e done
        | inr e ↦ rw e (ended-Follows p es σ done (ev.epollhup || ev.epollrdhup || ev.epollerr))
      ]
  on_listen-Follows p sd ev (some client) σ es keep v new =
      let done = dropped-Follows p sd ev σ es v in
      elim (Bool-cases ev.epollin) [
        | inl e ↦ rw e (
            Follows-append (accept_client h p client)
              (call (accept_client h p client) (epoll_mod sd false)) ((sd, ev) ∷ es) es σ
              (accept_client-Follows p client σ ((sd, ev) ∷ es) keep v (new client refl))
              (λ σ' v'.
                call-Follows E h kernel (accept_client h p client) (epoll_mod sd false) σ'
                  ((sd, ev) ∷ es) es v'
                  (InHand-ready E h kernel (accept_client h p client) sd ev σ' es v')))
        | inr e ↦ rw e (ended-Follows p es σ done (ev.epollhup || ev.epollrdhup || ev.epollerr))
      ]
