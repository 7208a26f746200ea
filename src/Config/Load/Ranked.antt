-- ===== src/Config/Load/Ranked.antt =====
-- What `Load` of internal/config/config.go returns.
use stream_guard.Prelude.{
  ℤ, ◌<ℤ◌, Bool, true, false, List, [], ◌∷◌, none, some, ltb_ℤ, eqb_ℤ, eq_of_parts, All, ◌≡◌, subst,
  arith, Bool-cases, Option-cases, inl, inr,
}
use stream_guard.Text.{Bytes}
use stream_guard.Config.{
  Provider, Config, Environment, Invalid, breaker_config_for, has_name, has_priority, validate,
}
use stream_guard.Config.Validation.{
  IsUsable, IsRunnable, AreDistinct, validate_sound, validate-IsRunnable,
}
use stream_guard.Config.File.{Parsers, Outcome, next, failed, panicked}
use stream_guard.Config.Load.{loaded, invalid, File, place, sort, accept, finish, load}

-- Every provider has a smaller priority than those after it.
abbrev AreRanked : List Provider → Type 0
AreRanked [] = Unit
AreRanked (p ∷ ps) = All (λ q. p.priority <ℤ q.priority) ps × AreRanked ps

-- No provider shares its priority with the given one.
abbrev Lacks : ℤ → List Provider → Type 0
Lacks n = All λ q. eqb_ℤ q.priority n ≡ false

All-place {κ} :
    (P : Provider → Type κ) (p : Provider) (qs : List Provider)
    → P p
    → All P qs
    → All P (place p qs)
unfolding place
All-place P p [] h hs = (h, tt)
All-place P p (q ∷ qs) h hs = elim (Bool-cases (ltb_ℤ p.priority q.priority)) [
  | inl e ↦ rw e (h, hs)
  | inr e ↦ rw e (hs.0, All-place P p qs h hs.1)
]

All-sort {κ} : (P : Provider → Type κ) (ps : List Provider) → All P ps → All P (sort ps)
unfolding sort
All-sort P [] h = tt
All-sort P (p ∷ ps) h = All-place P p (sort ps) h.0 (All-sort P ps h.1)

below_each :
    (n m : ℤ) (qs : List Provider)
    → n <ℤ m
    → All (λ q. m <ℤ q.priority) qs
    → All (λ q. n <ℤ q.priority) qs
below_each n m [] h hs = tt
below_each n m (q ∷ qs) h hs = (omega arith, below_each n m qs h hs.1)

place-AreRanked :
    (p : Provider) (qs : List Provider)
    → Lacks p.priority qs
    → AreRanked qs
    → AreRanked (place p qs)
unfolding place
place-AreRanked p [] l r = (tt, tt)
place-AreRanked p (q ∷ qs) l r = elim (Bool-cases (ltb_ℤ p.priority q.priority)) [
  | inl e ↦ rw e (((ground arith), below_each p.priority q.priority qs (ground arith) r.0), r)
  | inr e ↦ rw e (All-place _ p qs (ground arith) r.0, place-AreRanked p qs l.1 r.1)
]

taken_not_fresh : {b : Bool} → b ≡ true → b ≡ false → ⊥
taken_not_fresh h e = cc

-- Distinct priorities, read from the list of the earlier providers.
fresh_of :
    (seen ps : List Provider) (q : Provider)
    → has_priority seen q.priority ≡ true
    → AreDistinct seen ps
    → Lacks q.priority ps
unfolding has_priority has_name
fresh_of seen [] q h d = tt
fresh_of seen (p ∷ ps) q h d = (
  elim (Bool-cases (eqb_ℤ p.priority q.priority)) [
    | inr e ↦ e
    | inl e ↦ absurd (taken_not_fresh (rw (eq_of_parts p.priority q.priority (ground arith)) h) d.1)
  ],
  fresh_of (p ∷ seen) ps q (ground (arith, h)) d.2,
)

sort-AreRanked : (seen ps : List Provider) → AreDistinct seen ps → AreRanked (sort ps)
unfolding sort has_priority
sort-AreRanked seen [] d = tt
sort-AreRanked seen (p ∷ ps) d =
    place-AreRanked p (sort ps) (All-sort _ ps (fresh_of (p ∷ seen) ps p (ground arith) d.2))
      (sort-AreRanked (p ∷ seen) ps d.2)

-- The settings that `Load` returns: usable and in the order of their priorities, none twice.
pub record IsReady (env : Environment) (c : Config) : Type 0 where
  pub usable : All (IsUsable env c) c.providers
  pub ranked : AreRanked c.providers
  pub runnable : IsRunnable env c

with_others-IsRunnable :
    (env : Environment) (c : Config) (others : List Provider)
    → IsRunnable env c
    → IsRunnable env (record c { providers = others })
with_others-IsRunnable env c others v = record {
  window = v.window;
  max_tokens = v.max_tokens;
  interval = v.interval;
  drain = v.drain;
  keys_file = v.keys_file;
}

with_others :
    (env : Environment) (c : Config) (others : List Provider) (p : Provider)
    → IsUsable env c p
    → IsUsable env (record c { providers = others }) p
unfolding breaker_config_for
with_others env c others p u = record {
  named = u.named;
  known = u.known;
  priority_nonneg = u.priority_nonneg;
  reachable = u.reachable;
  breaker_kept = u.breaker_kept;
}

with_others_each :
    (env : Environment) (c : Config) (others ps : List Provider)
    → All (IsUsable env c) ps
    → All (IsUsable env (record c { providers = others })) ps
with_others_each env c others [] h = tt
with_others_each env c others (p ∷ ps) h =
    (with_others env c others p h.0, with_others_each env c others ps h.1)

module _ {ℓ} {W : Type ℓ} (parse : Parsers W) (env : Environment) where
  same_settings : {c c' : Config} {x y : W} → loaded c x ≡ loaded c' y → c ≡ c'
  same_settings h = cc

  not_loaded : {c : Config} {x : W} {e : Invalid} → invalid e ≡ loaded c x → ⊥
  not_loaded h = cc

  accept-IsReady :
      (c c' : Config) (drift drift' : W)
      → accept parse env c drift (validate env c) ≡ loaded c' drift'
      → IsReady env c'
  accept-IsReady c c' drift drift' h = elim (Option-cases (validate env c)) [
    | inr (e, bad) ↦ absurd (not_loaded (rw bad at h))
    | inl ok ↦
        let (some_provider, usable, distinct) = validate_sound env c ok in
        subst (IsReady env) (same_settings (rw ok at h)) (record {
          usable =
              with_others_each env c (sort c.providers) (sort c.providers)
                (All-sort (IsUsable env c) c.providers usable);
          ranked = sort-AreRanked [] c.providers distinct;
          runnable = with_others-IsRunnable env c (sort c.providers) (validate-IsRunnable env c ok);
        })
  ]

  finish-IsReady :
      (token : Bytes) (scan_error : Bool) (out : Outcome W) (c : Config) (drift : W)
      → finish parse env token scan_error out ≡ loaded c drift
      → IsReady env c
  finish-IsReady token scan_error failed c drift h = cc
  finish-IsReady token scan_error panicked c drift h = cc
  finish-IsReady token true (next s) c drift h = cc
  finish-IsReady token false (next s) c drift h = accept-IsReady _ c s.drift_threshold_pct drift h

  -- Whatever the file and the environment hold, the settings that are loaded have providers that the
  -- rest of the program can use, in increasing order of priority, no two of the same; the window,
  -- its limit and the reconciliation interval are positive, the drain timeout is not negative, and
  -- the keys file is there.
  pub load-IsReady :
      (threshold : W) (token : Bytes) (file : File) (c : Config) (drift : W)
      → load parse env threshold token file ≡ loaded c drift
      → IsReady env c
  unfolding load
  load-IsReady threshold token none c drift h = cc
  load-IsReady threshold token (some (lines, scan_error)) c drift h =
      finish-IsReady token scan_error _ c drift h
