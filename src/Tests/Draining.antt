-- ===== src/Tests/Draining.antt =====
-- A server that drains, with two sessions under way.
use stream_guard.Prelude.{ℕ, pos, true, false, List, [], ◌∷◌, none, ◌≡◌, ◌≢◌, refl, arith, eqb_iff}
use stream_guard.Server.Sessions.{
  Sessions, is_active, register_session, release_session, begin_shutdown, release_all,
}
use stream_guard.Server.Sessions.Drain.{
  Step, register, release, shut_down, force, run, IsOrderly, handed_out, run-IsOrderly,
  release_all-drained, late_session,
}

abbrev started : Sessions
started = record { session_seq = 0; draining = false; active = []; force_at = none; canceled = [] }

started-IsOrderly : IsOrderly started
started-IsOrderly = record { numbered = tt; distinct = tt; timed = λ e. refl }

abbrev steps : List Step
steps =
    register
    ∷ register
    ∷ register
    ∷ release 2
    ∷ shut_down (pos 100) (pos 30)
    ∷ force
    ∷ release 1
    ∷ []

end_of_steps : ((run steps started).active ≡ 3 ∷ []) × ((run steps started).canceled ≡ 1 ∷ 3 ∷ [])
unfolding run stream_guard.Server.Sessions.Drain.take
end_of_steps = (refl, refl)

run-IsOrderly_example : IsOrderly (run steps started) × (handed_out steps started ≡ 1 ∷ 2 ∷ 3 ∷ [])
run-IsOrderly_example = run-IsOrderly steps started (omega arith) started-IsOrderly

abbrev draining_two : Sessions
draining_two = record started { session_seq = 2; draining = true; active = 1 ∷ 2 ∷ [] }

abbrev order : List ℕ
order = 2 ∷ 1 ∷ []

some_listed : order ≢ []
some_listed e = cc

all_listed : (m : ℕ) → is_active m draining_two.active ≡ true → is_active m order ≡ true
unfolding is_active
all_listed m h = ground (arith, eqb_iff 1 m, eqb_iff 2 m)

release_all-drained_example :
    ((release_all order draining_two).active ≡ [])
    × ((release_all order draining_two).force_at ≡ none)
release_all-drained_example = release_all-drained order draining_two some_listed all_listed

abbrev last_one : Sessions
last_one = record started { session_seq = 4; draining = true; active = 4 ∷ [] }

late_session_example :
    let (late, m) = register_session (release_session 4 last_one) in
    (late.active ≡ m ∷ []) × (late.force_at ≡ none) × (begin_shutdown (pos 7) (pos 30) late ≡ late)
late_session_example = late_session 4 (pos 7) (pos 30) last_one refl refl
