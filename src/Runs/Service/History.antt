-- ===== src/Runs/Service/History.antt =====
-- The life of the runs in the repository, whatever the tasks, the sink and the runner do.
use ai_agent_hub_project_ome.Base.{
  ◌≤◌, ◌≡◌, ◌⊎◌, inl, inr, refl, sym, ap, ◌∙◌, subst, String, ◌==◌, eq_iff, Option, none, some,
  Bool, true, arith, Bool-cases, if◌then◌else◌,
}
use ai_agent_hub_project_ome.Base.Dict.{lookup, lookup-insert}
use ai_agent_hub_project_ome.Runs.Models.{
  RunState, queued, failed, cancelled, RunCommand, RunSnapshot, Repository, save, get,
}
use ai_agent_hub_project_ome.Runs.Service.{
  Phase, pending, Happening, advance, Job, Hub, empty_hub, submit, proceed, query, snapshot,
  save_all,
}
use ai_agent_hub_project_ome.Runs.Service.Lifecycle.{
  rank, is_final, Plausible, Agreed, IsAgreed, Kept, KeptAll, advance-Kept,
}

module _ (has_sink : Bool) where
  -- A run is submitted under a new identifier, or the task of a run goes on.
  pub data Step : Hub → Hub → Type 0 where
    submitted :
        {h : Hub} (run_id : String) (command : RunCommand)
        → lookup run_id h.jobs ≡ none
        → Step h (submit run_id command h)
    proceeded :
        {h : Hub} (run_id : String) (job : Job) (x : Happening) (next : Phase × Option RunSnapshot)
        → lookup run_id h.jobs ≡ some job
        → Plausible x
        → advance has_sink run_id job.command job.phase x ≡ some next
        → Step h (proceed run_id job.command next h)

  pub data Steps : Hub → Hub → Type 0 where
    done : {h : Hub} → Steps h h
    then_ : {g h k : Hub} → Steps g h → Step h k → Steps g k

-- What is written to the repository goes under the identifier of the run.
abbrev Written : String → Option RunSnapshot → Type 0
Written run_id none = Unit
Written run_id (some s) = s.run_id ≡ run_id

abbrev or_old : Option RunSnapshot → Option RunSnapshot → Option RunSnapshot
or_old none old = old
or_old (some s) old = some s

lookup-save_all :
    (r run_id : String) (o : Option RunSnapshot) (items : Repository)
    → Written run_id o
    → lookup r (save_all o items)
      ≡ (if run_id == r then or_old o (lookup r items) else lookup r items)
unfolding save_all
lookup-save_all r i none items h = ground arith
lookup-save_all r i (some s) items h = lookup-insert r s.run_id s items ∙ rw h refl

-- A later snapshot of a run: the same command, a state that is not earlier, and, once the state is
-- final, the same snapshot, or a failure or cancellation of a service with a sink.
abbrev pub Later : Bool → RunSnapshot → Option RunSnapshot → Type 0
Later has_sink old o =
    (new : RunSnapshot) × (o ≡ some new)
    × (new.command ≡ old.command)
    × (rank old.state ≤ rank new.state)
    × (is_final old.state ≡ true
        → (new ≡ old) ⊎ ((has_sink ≡ true) × ((new.state ≡ failed) ⊎ (new.state ≡ cancelled))))

Later-refl : (has_sink : Bool) (old : RunSnapshot) → Later has_sink old (some old)
Later-refl b old = (old, refl, refl, omega arith, λ f. inl refl)

module _ (has_sink : Bool) (run_id : String) where
  Kept-Written :
      (command : RunCommand) (phase : Phase) (next : Phase × Option RunSnapshot)
      → Kept has_sink run_id command phase next
      → Written run_id next.1
  Kept-Written c p (q, none) k = tt
  Kept-Written c p (q, some s) (_, same, _, _) = same.0

  advance-next :
      (command : RunCommand) (phase : Phase) (x : Happening) (next : Phase × Option RunSnapshot)
      → Plausible x
      → advance has_sink run_id command phase x ≡ some next
      → Kept has_sink run_id command phase next
  advance-next c p x next h e =
      subst (KeptAll has_sink run_id c p) e (advance-Kept has_sink run_id c p x h)

  -- After a turn of its task a run has a snapshot that agrees with the new phase.
  Agreed-next :
      (job : Job) (next : Phase × Option RunSnapshot) (o : Option RunSnapshot)
      → Kept has_sink run_id job.command job.phase next
      → Agreed has_sink run_id (some job) o
      → Agreed has_sink run_id
          (some (record { command = job.command; phase = next.0 }))
          (or_old next.1 o)
  Agreed-next job (q, none) (some s) (allowed, keeps) (same, mine, shown, _) =
      (same, mine, keeps s.state shown, allowed)
  Agreed-next job (q, some t) (some s) (allowed, same, shown, _) a =
      (same.0, same.1, shown, allowed)
  Agreed-next job (q, o) none k a = absurd a

  Later-next :
      (job : Job) (next : Phase × Option RunSnapshot) (old : RunSnapshot)
      → Kept has_sink run_id job.command job.phase next
      → Agreed has_sink run_id (some job) (some old)
      → Later has_sink old (or_old next.1 (some old))
  Later-next job (q, none) old k a = Later-refl has_sink old
  Later-next job (q, some t) old (allowed, same, shown, way) (_, mine, shown', allowed') =
      let (le, gives) = way old.state allowed' shown' in
      (t, refl, same.1 ∙ sym mine, le, λ f. inr (gives f))

module _ (has_sink : Bool) where
  of_job :
      (run_id : String) (job : Job) (h : Hub)
      → lookup run_id h.jobs ≡ some job
      → Agreed has_sink run_id (lookup run_id h.jobs) (lookup run_id h.repository)
      → Agreed has_sink run_id (some job) (lookup run_id h.repository)
  of_job i job h found a = subst (λ o. Agreed has_sink i o (lookup i h.repository)) found a

  Step-IsAgreed : {h k : Hub} → Step has_sink h k → IsAgreed has_sink h → IsAgreed has_sink k
  unfolding submit proceed save
  Step-IsAgreed {h = h} (submitted run_id command fresh) a r =
      rw
        (
          lookup-insert r run_id (snapshot run_id command queued) h.repository,
          lookup-insert r run_id (record { command = command; phase = pending }) h.jobs,
        )
        (elim (Bool-cases (run_id == r)) [
          | inl e ↦ rw e ((eq_iff run_id r).0 e, refl, refl, tt)
          | inr e ↦ rw e (a r)
        ])
  Step-IsAgreed {h = h} (proceeded run_id job x next found plausible turn) a r =
      let k = advance-next has_sink run_id job.command job.phase x next plausible turn in
      rw
        (
          lookup-save_all r run_id next.1 h.repository (Kept-Written has_sink run_id _ _ next k),
          lookup-insert r run_id (record { command = job.command; phase = next.0 }) h.jobs,
        )
        (elim (Bool-cases (run_id == r)) [
          | inl e ↦ rw e (
              subst
                (λ z.
                  Agreed has_sink z (some (record { command = job.command; phase = next.0 }))
                    (or_old next.1 (lookup z h.repository)))
                ((eq_iff run_id r).0 e)
                (Agreed-next has_sink run_id job next (lookup run_id h.repository) k
                  (of_job run_id job h found (a run_id))))
          | inr e ↦ rw e (a r)
        ])

  Step-Later :
      {h k : Hub}
      → Step has_sink h k
      → IsAgreed has_sink h
      → (r : String) (old : RunSnapshot) → lookup r h.repository ≡ some old
      → Later has_sink old (lookup r k.repository)
  unfolding submit proceed save
  Step-Later {h = h} (submitted run_id command fresh) a r old found =
      rw (lookup-insert r run_id (snapshot run_id command queued) h.repository)
        (elim (Bool-cases (run_id == r)) [
          | inl e ↦
              let same : run_id ≡ r = (eq_iff run_id r).0 e in
              let none_ : lookup r h.jobs ≡ none = subst (λ z. lookup z h.jobs ≡ none) same fresh in
              let stray : Agreed has_sink r none (some old) =
                subst (λ o. Agreed has_sink r none o) found
                  (subst (λ o. Agreed has_sink r o (lookup r h.repository)) none_ (a r)) in
              absurd stray
          | inr e ↦ rw (e, found) (Later-refl has_sink old)
        ])
  Step-Later {h = h} (proceeded run_id job x next known plausible turn) a r old found =
      let k = advance-next has_sink run_id job.command job.phase x next plausible turn in
      rw (lookup-save_all r run_id next.1 h.repository (Kept-Written has_sink run_id _ _ next k))
        (elim (Bool-cases (run_id == r)) [
          | inr e ↦ rw (e, found) (Later-refl has_sink old)
          | inl e ↦
              rw (e, found)
                (Later-next has_sink run_id job next old k (
                  subst (λ o. Agreed has_sink run_id (some job) o)
                    (ap (λ z. lookup z h.repository) ((eq_iff run_id r).0 e) ∙ found)
                    (of_job run_id job h known (a run_id))))
        ])

  Steps-IsAgreed : {h k : Hub} → Steps has_sink h k → IsAgreed has_sink h → IsAgreed has_sink k
  Steps-IsAgreed done a = a
  Steps-IsAgreed (then_ steps step) a = Step-IsAgreed step (Steps-IsAgreed steps a)

  empty_hub-IsAgreed : IsAgreed has_sink empty_hub
  unfolding lookup
  empty_hub-IsAgreed r = tt

  abbrev Broken : RunState → Type 0
  Broken state = (state ≡ failed) ⊎ (state ≡ cancelled)

  Broken-is_final : (state : RunState) → Broken state → is_final state ≡ true
  Broken-is_final state (inl e) = ap is_final e
  Broken-is_final state (inr e) = ap is_final e

  Later-trans :
      (old : RunSnapshot) (o o' : Option RunSnapshot)
      → Later has_sink old o
      → ((mid : RunSnapshot) → o ≡ some mid → Later has_sink mid o')
      → Later has_sink old o'
  Later-trans old o o' (mid, e, c, le, keep) next =
      let (new, e', c', le', keep') = next mid e in
      (
        new,
        e',
        c' ∙ c,
        omega arith,
        λ f. elim (keep f) [
          | inl same ↦ elim (keep' (ap (λ (s : RunSnapshot). is_final s.state) same ∙ f)) [
            | inl again ↦ inl (again ∙ same)
            | inr broken ↦ inr broken
          ]
          | inr (sink, broken) ↦ elim (keep' (Broken-is_final mid.state broken)) [
            | inl again ↦
                inr (sink, subst Broken (sym (ap (λ (s : RunSnapshot). s.state) again)) broken)
            | inr broken' ↦ inr broken'
          ]
        ],
      )

  -- The runner comes back with final states only. Whatever happens after a run has been submitted,
  -- it stays in the repository, under its command, and its state never goes back to an earlier one.
  -- A final snapshot stays as it is, or else there is an event sink, and the state is then failed
  -- or cancelled.
  pub Steps-Later :
      {h k : Hub}
      → Steps has_sink empty_hub h
      → Steps has_sink h k
      → (r : String) (old : RunSnapshot) → query r h ≡ some old
      → Later has_sink old (query r k)
  unfolding query get
  Steps-Later reached done r old found = rw found (Later-refl has_sink old)
  Steps-Later reached (then_ {h = m} steps step) r old found =
      Later-trans old (lookup r m.repository) _ (Steps-Later reached steps r old found) (λ mid e.
        Step-Later step (Steps-IsAgreed steps (Steps-IsAgreed reached empty_hub-IsAgreed)) r mid e)

  -- The runner comes back with final states only. In every state that the service can reach, each
  -- run has a task and a snapshot of its own identifier and command, whose state is the one that
  -- the phase of the task goes with: queued before it begins, running until the runner comes back,
  -- a final one when the task returns. A task that dies of an exception has a state other than
  -- queued.
  pub Steps-IsAgreed_empty : {h : Hub} → Steps has_sink empty_hub h → IsAgreed has_sink h
  Steps-IsAgreed_empty steps = Steps-IsAgreed steps empty_hub-IsAgreed
