-- ===== src/Server/Relay/Texts.antt =====
-- `runAttempt` of internal/server/server.go on an upstream that sends texts, counts of its usage that do
-- not fall, and other events, for which there is room in the budget, and then ends.
use stream_guard.Prelude.{
  ℕ, ◌+◌, ◌-◌, sub64, ◌-ℤ◌, ltb_ℤ, Bool-cases, inl, inr, ◌≤◌, ◌<◌, Bool, ℤ, pos, pos_part, ◌≤ℤ◌,
  ◌+ℤ◌, add64, add64_assoc, add64_pos, add-zero_ℤ, IsInt64, wrap64, wrap64-IsInt64, wrap64_id,
  half_word, true, false, List, [], ◌∷◌, ◌++◌, append_assoc, append-nil, Option, none, some, ◌≡◌,
  refl, sym, ap, ◌∙◌, arith,
}
use stream_guard.Text.{Bytes, codes, eq_bytes, is_empty}
use stream_guard.Parser.{Frame}
use stream_guard.RateLimit
use stream_guard.Budget.{ApiKeyRecord, try_reserve}
use stream_guard.Budget.Bounds.{IsBudgeted}
use stream_guard.Config.{Provider}
use stream_guard.Protocol.{Payload, content}
use stream_guard.Server.{
  Err, err_malformed, at_least_one, Upstream, unsent, unreached, answered, Shared, Arrival, frame,
  Attempt, Counter, go_on, stop, resolve, reserve, take, take_frame, take_content, take_usage,
  run_frames, run_attempt,
}

-- What the upstream says, and when: a text, how many tokens it has used so far, or an event.
pub data Said : Type 0 where
  text_said : ℤ → Bytes → Said
  usage_said : ℤ → ℕ → Said
  event_said : ℤ → Bytes → Said

-- As the parser gives it; the client takes every text.
abbrev heard_frame : Said → Frame
heard_frame (text_said at t) = record {
  event = [];
  body = [];
  text = t;
  usage_tokens = pos 0;
  has_usage = false;
}
heard_frame (usage_said at n) = record {
  event = [];
  body = [];
  text = [];
  usage_tokens = pos n;
  has_usage = true;
}
heard_frame (event_said at name) = record {
  event = name;
  body = [];
  text = [];
  usage_tokens = pos 0;
  has_usage = false;
}

abbrev said_at : Said → ℤ
said_at (text_said at t) = at
said_at (usage_said at n) = at
said_at (event_said at name) = at

abbrev said : Said → Arrival
said x = record { meanwhile = λ s. s; at = said_at x; what = frame (heard_frame x) none }

abbrev pub then_last : List Said → Arrival → List Arrival
then_last [] last = last ∷ []
then_last (x ∷ xs) last = said x ∷ then_last xs last

-- What a text costs.
abbrev pub cost : (Bytes → ℤ) → Bytes → ℕ
cost count text = pos_part (at_least_one (count text))

-- What an utterance costs after `k` tokens: a count of the usage, what it exceeds them by.
abbrev pub price : (Bytes → ℤ) → ℕ → Said → ℕ
price count k (text_said at t) = cost count t
price count k (usage_said at n) = n - k
price count k (event_said at name) = 0

abbrev pub total : (Bytes → ℤ) → ℕ → List Said → ℕ
total count k [] = 0
total count k (x ∷ xs) = price count k x + total count (k + price count k x) xs

-- An upstream never counts less than it has been charged for, and an event is not the end.
abbrev pub IsHonest : ℕ → Said → Type 0
IsHonest k (text_said at t) = Unit
IsHonest k (usage_said at n) = k ≤ n
IsHonest k (event_said at name) = (eq_bytes name (codes "done") ≡ false) × (is_empty name ≡ false)

abbrev pub AreHonest : (Bytes → ℤ) → ℕ → List Said → Type 0
AreHonest count k [] = Unit
AreHonest count k (x ∷ xs) = IsHonest k x × AreHonest count (k + price count k x) xs

-- What the client sees of it.
abbrev pub content_of : Said → List Payload
content_of (text_said at t) = content t ∷ []
content_of x = []

abbrev pub contents : List Said → List Payload
contents [] = []
contents (x ∷ xs) = content_of x ++ contents xs

abbrev pub spent : ApiKeyRecord → ℕ → ApiKeyRecord
spent key n = record key { tokens_used = pos (pos_part key.tokens_used + n) }

-- What an attempt has done: `n` tokens in use, and `shown` sent.
pub record Heard (m m' : Attempt) (n : ℕ) (shown : List Payload) : Type 0 where
  pub key : m'.shared.key ≡ spent m.shared.key n
  pub breakers : m'.shared.breakers ≡ m.shared.breakers
  pub ledger : m'.shared.ledger ≡ m.shared.ledger
  pub out : m'.out ≡ m.out ++ shown
  pub tokens : m'.tokens ≡ pos (pos_part m.tokens + n)
  pub total : m'.total ≡ add64 m.total (pos n)

reserve_room :
    (at : ℤ) (n : ℕ) (s : Shared)
    → IsBudgeted s.key
    → pos_part s.key.tokens_used + n ≤ pos_part s.key.token_budget
    → reserve at (pos n) s ≡ (
      record s { key = spent s.key n; limiter = RateLimit.add s.key.key_hash (pos n) at s.limiter },
      true,
    )
unfolding reserve try_reserve ◌+ℤ◌
reserve_room at n s b room = ground (arith, wrap64_id (s.key.tokens_used +ℤ pos n))

-- `n` tokens fit: the account is in order, and the attempt's own count is part of it.
pub record HasRoom (m : Attempt) (n : ℕ) : Type 0 where
  pub budgeted : IsBudgeted m.shared.key
  pub room : pos_part m.shared.key.tokens_used + n ≤ pos_part m.shared.key.token_budget
  pub nonneg : pos 0 ≤ℤ m.tokens
  pub counted : pos_part m.tokens ≤ pos_part m.shared.key.tokens_used
  pub total_fits : IsInt64 m.total

-- A counter of tokens is never negative.
abbrev pub IsCount : (Bytes → ℤ) → Type 0
IsCount count = (text : Bytes) → pos 0 ≤ℤ count text

spent_nothing : (key : ApiKeyRecord) → pos 0 ≤ℤ key.tokens_used → key ≡ spent key 0
spent_nothing key nonneg = ground arith

add64_none : (a : ℤ) → IsInt64 a → add64 a (pos 0) ≡ a
add64_none a fits = ap wrap64 (add-zero_ℤ a) ∙ wrap64_id a fits

idle : (m : Attempt) → HasRoom m 0 → Heard m m 0 []
idle m v = record {
  key = spent_nothing m.shared.key v.budgeted.used_nonneg;
  breakers = refl;
  ledger = refl;
  out = sym (append-nil m.out);
  tokens = ground (arith, v.nonneg);
  total = sym (add64_none m.total v.total_fits);
}

-- The attempt after an utterance of `n` tokens is in order with room for the rest.
Heard-HasRoom :
    (m m' : Attempt) (a n : ℕ) (shown : List Payload)
    → HasRoom m (a + n)
    → Heard m m' a shown
    → HasRoom m' n
Heard-HasRoom m m' a n shown v h = record {
  budgeted = rw h.key (record {
    budget_fits = v.budgeted.budget_fits;
    used_nonneg = omega arith;
    used_within = grind (arith, v.room, v.budgeted.used_nonneg, v.budgeted.used_within);
  });
  room = rw h.key (omega (arith, v.room));
  nonneg = rw h.tokens (omega arith);
  counted = rw (h.key, h.tokens) (omega (arith, v.counted));
  total_fits = rw h.total (wrap64-IsInt64 (m.total +ℤ pos a));
}

take-text :
    (count : Bytes → ℤ) (at : ℤ) (t : Bytes) (m : Attempt)
    → IsCount count
    → HasRoom m (cost count t)
    → let (m', verdict) = take count at (said (text_said at t)).what m in
      (verdict ≡ go_on) × Heard m m' (cost count t) (content t ∷ [])
unfolding take take_frame take_content ◌+ℤ◌ eq_bytes
take-text count at t m nonneg v =
    let n = cost count t in
    let whole : at_least_one (count t) ≡ pos n = ground (arith, nonneg t) in
    let sum : add64 m.tokens (pos n) ≡ pos (pos_part m.tokens + n) =
      ground (arith, wrap64_id (m.tokens +ℤ pos n)) in
    rw (whole, reserve_room at n m.shared v.budgeted v.room)
      (
        refl,
        record {
          key = refl;
          breakers = refl;
          ledger = refl;
          out = refl;
          tokens = sum;
          total = refl;
        },
      )

-- What a count exceeds the tokens so far by.
rise :
    (m : Attempt) (k n : ℕ)
    → m.tokens ≡ pos k
    → k ≤ n
    → HasRoom m (n - k)
    → sub64 (pos n) m.tokens ≡ pos (n - k)
unfolding ◌-ℤ◌
rise m k n own le v =
    rw own (ground (arith, wrap64_id (pos (n - k)), v.counted, v.room, v.budgeted.budget_fits, own))

take-usage :
    (count : Bytes → ℤ) (at : ℤ) (k n : ℕ) (m : Attempt)
    → m.tokens ≡ pos k
    → k ≤ n
    → HasRoom m (n - k)
    → let (m', verdict) = take count at (said (usage_said at n)).what m in
      (verdict ≡ go_on) × Heard m m' (n - k) []
unfolding take take_frame take_usage eq_bytes
take-usage count at k n m own le v = elim (Bool-cases (ltb_ℤ (pos 0) (pos (n - k)))) [
  | inl more ↦
      rw (rise m k n own le v, reserve_room at (n - k) m.shared v.budgeted v.room, more, take_usage)
        (
          refl,
          record {
            key = refl;
            breakers = refl;
            ledger = refl;
            out = sym (append-nil m.out);
            tokens = ap pos (ground (arith, own));
            total = refl;
          },
        )
  | inr same ↦
      rw (rise m k n own le v, same, take_usage)
        (
          refl,
          record {
            key =
                spent_nothing m.shared.key v.budgeted.used_nonneg
                ∙ ap (spent m.shared.key) (ground (arith, same));
            breakers = refl;
            ledger = refl;
            out = sym (append-nil m.out);
            tokens = ap pos (ground (arith, own));
            total = refl;
          },
        )
]

take-event :
    (count : Bytes → ℤ) (at : ℤ) (name : Bytes) (m : Attempt)
    → IsHonest 0 (event_said at name)
    → HasRoom m 0
    → let (m', verdict) = take count at (said (event_said at name)).what m in
      (verdict ≡ go_on) × Heard m m' 0 []
unfolding take take_frame
take-event count at name m (going_on, named) v = rw (going_on, named) (refl, idle m v)

take-said :
    (count : Bytes → ℤ) (k : ℕ) (x : Said) (m : Attempt)
    → IsCount count
    → IsHonest k x
    → m.tokens ≡ pos k
    → HasRoom m (price count k x)
    → let (m', verdict) = take count (said_at x) (said x).what m in
      (verdict ≡ go_on) × Heard m m' (price count k x) (content_of x)
take-said count k (text_said at t) m nonneg honest own v = take-text count at t m nonneg v
take-said count k (usage_said at n) m nonneg honest own v = take-usage count at k n m own honest v
take-said count k (event_said at name) m nonneg honest own v = take-event count at name m honest v

-- What ends an attempt with the given result, whatever came before.
abbrev pub Ends : (Bytes → ℤ) → Arrival → Option Err → Type 0
Ends count last result =
    (m : Attempt)
    → take count last.at last.what (record m { shared = last.meanwhile m.shared })
      ≡ (m, stop result)

spent_more : (key : ApiKeyRecord) (a b : ℕ) → spent (spent key a) b ≡ spent key (a + b)
spent_more key a b = ground arith

run_last :
    (count : Bytes → ℤ) (last : Arrival) (result : Option Err) (m : Attempt)
    → Ends count last result
    → run_frames count (last ∷ []) m ≡ (m, result)
unfolding run_frames
run_last count last result m ends = rw (ap (λ x. x.1) (ends m), ap (λ x. x.0) (ends m), run_frames)

run_said :
    (count : Bytes → ℤ) (x : Said) (rest : List Arrival) (m : Attempt)
    → (take count (said_at x) (said x).what m).1 ≡ go_on
    → run_frames count (said x ∷ rest) m
      ≡ run_frames count rest (take count (said_at x) (said x).what m).0
unfolding run_frames
run_said count x rest m on = rw (on, run_frames)

add64_more :
    (a : ℤ) (m n : ℕ) → m + n < half_word → add64 (add64 a (pos m)) (pos n) ≡ add64 a (pos (m + n))
add64_more a m n small = add64_assoc a (pos m) (pos n) ∙ ap (add64 a) (add64_pos m n small)

-- One utterance after another.
Heard-trans :
    (m m' m'' : Attempt) (a b : ℕ) (shown shown' : List Payload)
    → a + b < half_word
    → Heard m m' a shown
    → Heard m' m'' b shown'
    → Heard m m'' (a + b) (shown ++ shown')
Heard-trans m m' m'' a b shown shown' small h h' = record {
  key = h'.key ∙ ap (λ k. spent k b) h.key ∙ spent_more m.shared.key a b;
  breakers = h'.breakers ∙ h.breakers;
  ledger = h'.ledger ∙ h.ledger;
  out = h'.out ∙ ap (λ o. o ++ shown') h.out ∙ append_assoc m.out shown shown';
  tokens = h'.tokens ∙ ap (λ t. pos (pos_part t + b)) h.tokens ∙ ap pos (omega arith);
  total = h'.total ∙ ap (λ t. add64 t (pos b)) h.total ∙ add64_more m.total a b small;
}

HasRoom-less : (m : Attempt) (a n : ℕ) → a ≤ n → HasRoom m n → HasRoom m a
HasRoom-less m a n le v = record {
  budgeted = v.budgeted;
  room = omega (arith, v.room, le);
  nonneg = v.nonneg;
  counted = v.counted;
  total_fits = v.total_fits;
}

hears :
    (count : Bytes → ℤ) (k : ℕ) (xs : List Said) (last : Arrival) (result : Option Err)
    (m : Attempt)
    → IsCount count
    → AreHonest count k xs
    → Ends count last result
    → m.tokens ≡ pos k
    → HasRoom m (total count k xs)
    → let (m', r) = run_frames count (then_last xs last) m in
      (r ≡ result) × Heard m m' (total count k xs) (contents xs)
hears count k [] last result m nonneg honest ends own v =
    rw (run_last count last result m ends) (refl, idle m v)
hears count k (x ∷ xs) last result m nonneg honest ends own v =
    let n = price count k x in
    let rest = total count (k + n) xs in
    let (on, here) =
      take-said count k x m nonneg honest.0 own (HasRoom-less m n (n + rest) (omega arith) v) in
    let m' = (take count (said_at x) (said x).what m).0 in
    let (same, there) =
      hears count (k + n) xs last result m' nonneg honest.1 ends
        (here.tokens ∙ ap (λ t. pos (pos_part t + n)) own)
        (Heard-HasRoom m m' n rest (content_of x) v here) in
    rw (run_said count x (then_last xs last) m on) (
      same,
      Heard-trans m m' _ n rest (content_of x) (contents xs)
          (omega (arith, v.room, v.budgeted.budget_fits)) here there,
    )

-- What a provider's upstream amounts to: the tokens it costs, what it makes the client see, and the
-- result of the attempt.
pub data Plays (count : Bytes → Bytes → ℤ) : Upstream → ℕ → List Payload → Option Err → Type 0 where
  unsent_play : (e : Err) → Plays count (unsent e) 0 [] (some e)
  unreached_play :
      (e : Err) (forced : Bool) → Plays count (unreached e forced) 0 [] (some (resolve e forced))
  refused_play :
      (code : ℕ) (hint : Bytes) (arrivals : List Arrival)
      → 400 ≤ code
      → Plays count (answered code hint arrivals) 0 [] (some err_malformed)
  answered_play :
      (code : ℕ) (hint : Bytes) (xs : List Said) (last : Arrival) (result : Option Err)
      → code < 400
      → IsCount (count hint)
      → AreHonest (count hint) 0 xs
      → Ends (count hint) last result
      → Plays count
          (answered code hint (then_last xs last))
          (total (count hint) 0 xs)
          (contents xs)
          result

-- From an attempt with room for its tokens, such an upstream is played in full.
pub run_attempt-Plays :
    (count : Counter) (model : Bytes) (p : Provider) (u : Upstream) (n : ℕ) (shown : List Payload)
    (result : Option Err) (m : Attempt)
    → Plays (count p.name model) u n shown result
    → m.tokens ≡ pos 0
    → HasRoom m n
    → let (m', r) = run_attempt count model p u m in (r ≡ result) × Heard m m' n shown
unfolding run_attempt
run_attempt-Plays count model p u n shown result m (unsent_play e) own v = (refl, idle m v)
run_attempt-Plays count model p u n shown result m (unreached_play e forced) own v =
    (refl, idle m v)
run_attempt-Plays count model p u n shown result m (refused_play code hint arrivals bad) own v =
    ground (arith, idle m v)
run_attempt-Plays count model p u n shown result m
      (answered_play code hint xs last end good nonneg honest ends) own v =
    ground (arith, hears (count p.name model hint) 0 xs last end m nonneg honest ends own v)
