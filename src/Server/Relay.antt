-- ===== src/Server/Relay.antt =====
-- The failover loop of `handleStream` in internal/server/server.go when the breakers of the providers
-- are closed and no other request disturbs this one: which provider serves it, and what the client
-- gets.
pub mod Texts
pub mod Closed
pub mod Turns
use stream_guard.Prelude.{
  add64, [], true, arith, ℕ, ◌+◌, ◌-◌, ◌≤◌, suc, ℤ, pos, pos_part, false, List, ◌∷◌, ◌++◌,
  append_assoc, none, some, if◌then◌else◌, ◌≡◌, refl, sym, ap, subst, ◌∙◌,
}
use stream_guard.Text.{Bytes, codes}
use stream_guard.Budget.Bounds.{IsBudgeted}
use stream_guard.Breaker.{closed}
use stream_guard.Breaker
use stream_guard.Ledger
use stream_guard.Cascade.{Session, complete}
use stream_guard.Cascade
use stream_guard.Config.{Provider}
use stream_guard.Protocol.{Payload, status, failover, regenerating}
use stream_guard.Server.{Err, Shared, Counter}
use stream_guard.Server.Stream.{Turn, Progress, left, Periods, begin, classify}
use stream_guard.Server.Rounds.{round, rounds, conclude, stream}
use stream_guard.Server.Relay.Texts.{Plays, spent}
use stream_guard.Server.Relay.Closed.{
  IsRetried, Served, IsQuiet, switch, ending, AreClosed, HasOwnNames, IsFresh,
}
use stream_guard.Server.Relay.Turns.{
  announced, announced_first, HasSpace, EndedBy, final_status, fail-last, serve-returned,
  fail-HandedOn,
}

-- How a request fares with the providers that are left, from the round `i`, after `n` failovers and
-- `sent` tokens sent: one fails, and the next takes over; or one answers in full; or the last one
-- fails. With what the client sees after the status event. `room` tokens fit the budget, and `now` is
-- the time after the loop.
pub data Story (count : Counter) (model : Bytes) (turns : ℕ → Turn) (room : ℕ) (now : ℤ)
    : ℕ → ℕ → ℤ → List Provider → List Payload → Served → Type 0 where
  serves :
      (i n : ℕ) (sent : ℤ) (p : Provider) (rest : List Provider) (tokens : ℕ) (shown : List Payload)
      → IsQuiet (turns i)
      → Plays (count p.name model) (turns i).upstream tokens shown none
      → tokens ≤ room
      → Story count model turns room now i n sent
          (p ∷ rest)
          shown
          (record { provider = p; tokens = tokens; at = (turns i).ended; cut = false })
  fails :
      (i n : ℕ) (sent : ℤ) (p q : Provider) (rest : List Provider) (tokens : ℕ)
      (shown later : List Payload) (e : Err) (w : Served)
      → IsQuiet (turns i)
      → Plays (count p.name model) (turns i).upstream tokens shown (some e)
      → IsRetried e
      → tokens ≤ room
      → Story count model turns room now
          (suc i)
          (n + 1)
          (add64 sent (pos tokens))
          (q ∷ rest)
          later
          w
      → Story count model turns room now i n sent
          (p ∷ q ∷ rest)
          (shown ++ switch p q (classify e) (pos tokens) n ++ later)
          w
  exhausts :
      (i n : ℕ) (sent : ℤ) (p : Provider) (tokens : ℕ) (shown : List Payload) (e : Err)
      → IsQuiet (turns i)
      → Plays (count p.name model) (turns i).upstream tokens shown (some e)
      → IsRetried e
      → tokens ≤ room
      → Story count model turns room now i n sent
          (p ∷ [])
          (shown ++ ending (add64 sent (pos tokens)))
          (record { provider = p; tokens = tokens; at = now; cut = true })

module _ (period : Periods) (count : Counter) (model : Bytes) (s₀ : Shared) where
  retold :
      {w : Served} {h : Progress} {shown shown' : List Payload}
      → shown ≡ shown'
      → EndedBy period s₀ shown w h
      → EndedBy period s₀ shown' w h
  retold {w} {h} e v = subst (λ x. EndedBy period s₀ x w h) e v

  rounds-EndedBy :
      (turns : ℕ → Turn) (room : ℕ) (now : ℤ) (i n : ℕ) (sent : ℤ) (ps : List Provider)
      (shown : List Payload) (w : Served) (h : Progress)
      → Story count model turns room now i n sent ps shown w
      → IsFresh s₀ n sent ps h
      → HasOwnNames ps
      → HasSpace s₀ room
      → let (h', e) = rounds period count model turns i ps h in
        EndedBy period s₀ (announced_first ps h ++ shown) w (conclude period now e h')
  unfolding rounds conclude
  rounds-EndedBy turns room now _ _ _ _ _ _ h (serves i n sent p rest tokens shown quiet plays le) v
        own f =
      let (back, done) =
        serve-returned period count model s₀ n sent (turns i) p rest h tokens room shown v f le
          quiet plays in
      rw (back, rounds) done
  rounds-EndedBy turns room now _ _ _ _ _ _ h (exhausts i n sent p tokens shown e quiet plays k le)
        v own f =
      let (stopped, done) =
        fail-last period count model s₀ n sent (turns i) p h tokens room shown e now v f le quiet
          plays k in
      rw (stopped, rounds) (retold (append_assoc (announced p h) shown _) done)
  rounds-EndedBy turns room now _ _ _ _ _ _ h
        (fails i n sent p q rest tokens shown later e w quiet plays k le story) v own f =
      let a =
        fail-HandedOn period count model s₀ n sent (turns i) p q rest h tokens room shown e v own f
          le quiet plays k in
      let done =
        rounds-EndedBy turns room now (suc i) (n + 1) (add64 sent (pos tokens)) (q ∷ rest) later w
          (round period count model (turns i) p (q ∷ rest) h).0 story a.fresh own.1 f in
      let front = announced p h in
      let change = switch p q (classify e) (pos tokens) n in
      let told : announced q (round period count model (turns i) p (q ∷ rest) h).0 ++ later
          ≡ front ++ (shown ++ change ++ later) =
        rw a.status_sent (
          rw a.out (
            append_assoc (front ++ shown) change later
            ∙ append_assoc front shown (change ++ later)
            ∙ ap (λ x. front ++ x) (sym (append_assoc shown change later)))) in
      rw (a.on, rounds) (retold told done)

-- Let no other request disturb this one, let every provider's breaker be closed and its name its own,
-- and let the key's count lie within the budget with room for what each provider sends. Let no text
-- be counted below zero, and let the client take every text. A provider, if it answers, sends texts,
-- counts of its usage that never fall below what it has been charged for, and other events, and then
-- ends or fails; it is charged for each text by the token counter, at least one, and for each count
-- what it adds. If the providers fail, one after the other, in ways that another provider is tried
-- for, until one answers in full or none is left, then the client of `stream` has got the status
-- event, and then the texts that each provider sent, with a failover and a regenerating event from one
-- to the next, and the truncated event if none was left. The request is complete if one answered, or
-- else truncated. Of the budget only what the last provider is charged for is in use, and it is billed
-- to it by one ledger entry, which is cut if the request is.
pub stream-served :
    (s : Shared) (period : Periods) (count : Counter) (model : Bytes) (turns : ℕ → Turn) (now : ℤ)
    (p : Provider) (rest : List Provider) (session : Session) (room : ℕ) (shown : List Payload)
    (w : Served)
    → IsBudgeted s.key
    → pos_part s.key.tokens_used + room ≤ pos_part s.key.token_budget
    → AreClosed s.breakers (p ∷ rest)
    → HasOwnNames (p ∷ rest)
    → Story count model turns room now 0 0 (pos 0) (p ∷ rest) shown w
    → let h = stream period count model turns now (p ∷ rest) (begin s session) in
      (h.session.status ≡ final_status w.cut)
      × (h.out ≡ status (record { state = codes "healthy"; provider = codes p.name }) ∷ shown)
      × (h.shared.key ≡ spent s.key w.tokens)
      × (h.shared.ledger
          ≡ Ledger.record_in s.key.key_hash w.provider.name
              (period w.at s.ledger)
              (pos w.tokens)
              w.cut
              s.ledger)
unfolding stream begin
stream-served s period count model turns now p rest session room shown w b fits all_closed own
      story =
    let done =
      rounds-EndedBy period count model s turns room now 0 0 (pos 0) (p ∷ rest) shown w
        (begin s session) story
        (record {
          key = refl;
          ledger = refl;
          unclaimed = refl;
          failovers = refl;
          delivered = refl;
          delivered_fits = omega arith;
          closed_left = all_closed;
        })
        own (record { budgeted = b; fits = fits }) in
    (done.status, done.out, done.key, done.billed)
