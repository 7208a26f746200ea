-- ===== src/Server/Sessions.antt =====
-- The sessions under way and the drain of internal/server/server.go: registerSession, releaseSession,
-- BeginShutdown, forceCloseActive. A session `sg-n` stands by its number `n`. `sessionSeq` and
-- `draining` are atomic and the rest is under the mutex; a whole call is taken as one step.
pub mod Drain
use stream_guard.Prelude.{
  ℕ, ◌+◌, ◌%◌, ℤ, ◌+ℤ◌, Bool, true, false, ◌||◌, List, [], ◌∷◌, ◌++◌, Option, none, some, eqb, word,
  if◌then◌else◌,
}

pub record Sessions : Type 0 where
  pub session_seq : ℕ  -- uint64
  pub draining : Bool
  pub active : List ℕ
  pub force_at : Option ℤ  -- when the timer goes off
  pub canceled : List ℕ  -- by the forced shutdown, the last ones first

unfoldable pub is_active : ℕ → List ℕ → Bool
is_active n [] = false
is_active n (m ∷ ms) = eqb m n || is_active n ms

unfoldable pub remove : ℕ → List ℕ → List ℕ
remove n [] = []
remove n (m ∷ ms) = if eqb m n then remove n ms else m ∷ remove n ms

-- A write to the map: a number that is there stays where it is.
unfoldable pub put : ℕ → List ℕ → List ℕ
unfolding is_active
put n ms = if is_active n ms then ms else ms ++ n ∷ []

-- The sessions, and the number of the new one.
unfoldable pub register_session : Sessions → Sessions × ℕ
unfolding put
register_session s =
    let n = (s.session_seq + 1) % word in (record s { session_seq = n; active = put n s.active }, n)

abbrev is_nil : List ℕ → Bool
is_nil [] = true
is_nil (n ∷ ns) = false

unfoldable pub release_session : ℕ → Sessions → Sessions
unfolding remove
release_session n s =
    let active = remove n s.active in
    record s { active = active; force_at = if is_nil active then none else s.force_at }

unfoldable pub begin_shutdown : ℤ → ℤ → Sessions → Sessions
begin_shutdown now timeout s =
    if s.draining then s else record s { draining = true; force_at = some (now +ℤ timeout) }

-- The timer's function. It leaves the timer in its field.
unfoldable pub force_close_active : Sessions → Sessions
force_close_active s = record s { canceled = s.active ++ s.canceled }

-- `releaseSession` by one request after another.
unfoldable pub release_all : List ℕ → Sessions → Sessions
unfolding release_session
release_all [] s = s
release_all (n ∷ ns) s = release_all ns (release_session n s)
