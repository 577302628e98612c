-- ===== src/Fleet/Monitoring.antt =====
-- Which judges `monitor_judges` switches off.
use judgeloom_core.Base.{
  first-passes, ℕ, suc, ◌+◌, ◌≤◌, ◌≡◌, refl, ap, ◌∙◌, arith, ◌==◌, ==_iff, Bool, true, false, some,
  [], ◌∷◌, if◌then◌else◌, count_where, All, row-update_where, Bool-cases, inl, inr,
}
use judgeloom_core.Fleet.Judges.{
  Judge, Fleet, find_judge, save_judge, register, report_load, update_judge_ping, on_connect,
  on_disconnect, set_blocked, heartbeat_timeout, is_silent, sent_offline, monitor_judges,
}

-- No judge is online that was silent for longer than the timeout.
abbrev pub IsHeard : ℕ → Judge → Type 0
IsHeard now j = (j.online ≡ true) → now ≤ j.updated_at + heartbeat_timeout

abbrev pub count_online : Fleet → ℕ
count_online fleet = count_where (λ j. j.online) fleet

IsHeard-sent_offline :
    (now : ℕ) (j : Judge) → IsHeard now (if is_silent now j then sent_offline now j else j)
IsHeard-sent_offline now j = elim (Bool-cases (is_silent now j)) [
  | inl t ↦ rw t (λ on. omega arith)
  | inr f ↦ rw f (λ on. ground arith)
]

counted_now :
    (now : ℕ) (j : Judge) (left off before : ℕ)
    → left + off ≡ before
    → (if (if is_silent now j then sent_offline now j else j).online then suc left else left)
        + (if is_silent now j then suc off else off)
      ≡ (if j.online then suc before else before)
counted_now now j left off before h = elim (Bool-cases (is_silent now j)) [
  | inl t ↦ let on : j.online ≡ true = ground arith in rw (t, on) (omega (arith, h))
  | inr f ↦ elim (Bool-cases j.online) [
    | inl on ↦ rw (f, on) (omega (arith, h))
    | inr off ↦ rw (f, off) (omega (arith, h))
  ]
]

-- After a check every judge that is online was heard of within the last two minutes, and the judges
-- that it counts are those that are not online any more.
pub monitor_judges_complete :
    (now : ℕ) (fleet : Fleet)
    → All (IsHeard now) (monitor_judges now fleet).0
      × (count_online (monitor_judges now fleet).0 + (monitor_judges now fleet).1
          ≡ count_online fleet)
unfolding monitor_judges
monitor_judges_complete now [] = (tt, refl)
monitor_judges_complete now (j ∷ js) =
    let (heard, counted) = monitor_judges_complete now js in
    ((IsHeard-sent_offline now j, heard), counted_now now j _ _ _ counted)

-- What happens to the judges within a time, without what switches off the judge `k`: a request of a
-- judge, the end of another judge's connection, an action of an administrator, who may edit any
-- column but does not take `k` offline, or a check.
pub data FleetStep (k from until : ℕ) : Fleet → Fleet → Type 0 where
  registers :
      (judge : Judge) (version now : ℕ) {fleet : Fleet}
      → from ≤ now
      → FleetStep k from until fleet (register judge version now fleet)
  beats :
      (judge : Judge) (load now : ℕ) {fleet : Fleet}
      → from ≤ now
      → FleetStep k from until fleet (report_load judge load now fleet)
  pings :
      (judge : Judge) (ping now : ℕ) {fleet : Fleet}
      → from ≤ now
      → FleetStep k from until fleet (update_judge_ping judge ping now fleet)
  connects :
      (judge : Judge) (now : ℕ) {fleet : Fleet}
      → from ≤ now
      → FleetStep k from until fleet (on_connect judge now fleet)
  disconnects :
      (judge : Judge) (now : ℕ) {fleet : Fleet}
      → from ≤ now
      → (judge.id == k) ≡ false
      → FleetStep k from until fleet (on_disconnect judge now fleet)
  blocks :
      (blocked : Bool) (judge : Judge) (now : ℕ) {fleet : Fleet}
      → from ≤ now
      → FleetStep k from until fleet (set_blocked blocked judge now fleet)
  edits :
      (i : ℕ) (set : Judge → Judge) (now : ℕ) {fleet : Fleet}
      → from ≤ now
      → ((j : Judge) → (set j).id ≡ j.id)
      → ((i == k) ≡ true → (j : Judge) → j.online ≡ true → (set j).online ≡ true)
      → FleetStep k from until fleet (save_judge i (λ j. record (set j) { updated_at = now }) fleet)
  monitors :
      (now : ℕ) {fleet : Fleet}
      → now ≤ until
      → FleetStep k from until fleet (monitor_judges now fleet).0

pub data FleetReach (k from until : ℕ) (start : Fleet) : Fleet → Type 0 where
  arrived : FleetReach k from until start start
  goes_on :
      {mid new : Fleet}
      → FleetReach k from until start mid
      → FleetStep k from until mid new
      → FleetReach k from until start new

-- A judge that is online and was heard of since a time.
abbrev pub IsOnline : ℕ → ℕ → Fleet → Type 0
IsOnline k from fleet =
    (j : Judge) × (find_judge k fleet ≡ some j) × (j.online ≡ true) × (from ≤ j.updated_at)

save-IsOnline :
    (k i from : ℕ) (set : Judge → Judge) (fleet : Fleet)
    → ((j : Judge) → (set j).id ≡ j.id)
    → ((i == k) ≡ true → (j : Judge) → j.online ≡ true → (set j).online ≡ true)
    → ((j : Judge) → from ≤ (set j).updated_at)
    → IsOnline k from fleet
    → IsOnline k from (save_judge i set fleet)
save-IsOnline k i from set fleet id_kept online_kept later (j, found, on, at) = (
  if j.id == i then set j else j,
  row-update_where (λ j. j.id) k (λ j. j.id == i) set fleet id_kept found,
  stays_on (j.id == i) j (λ t. ground (arith, first-passes (λ j. j.id == k) fleet found)) on,
  later_than (j.id == i) j at,
)
  where
    stays_on :
        (b : Bool) (j : Judge)
        → (b ≡ true → (i == k) ≡ true)
        → j.online ≡ true
        → (if b then set j else j).online ≡ true
    stays_on true j own on = online_kept (own refl) j on
    stays_on false j own on = on

    later_than :
        (b : Bool) (j : Judge) → from ≤ j.updated_at → from ≤ (if b then set j else j).updated_at
    later_than true j at = later j
    later_than false j at = at

FleetStep-IsOnline :
    {from until : ℕ} {fleet new : Fleet} (k : ℕ)
    → until ≤ from + heartbeat_timeout
    → FleetStep k from until fleet new
    → IsOnline k from fleet
    → IsOnline k from new
unfolding register report_load update_judge_ping on_connect on_disconnect set_blocked monitor_judges
FleetStep-IsOnline {from} {until} {fleet} k short (registers judge version now le) h =
    save-IsOnline k judge.id from _ fleet (λ j. refl) (λ _ j _. refl) (λ j. le) h
FleetStep-IsOnline {from} {until} {fleet} k short (beats judge load now le) h =
    save-IsOnline k judge.id from _ fleet (λ j. refl) (λ _ j _. refl) (λ j. le) h
FleetStep-IsOnline {from} {until} {fleet} k short (pings judge ping now le) h =
    save-IsOnline k judge.id from _ fleet (λ j. refl) (λ _ j _. refl) (λ j. le) h
FleetStep-IsOnline {from} {until} {fleet} k short (blocks blocked judge now le) h =
    save-IsOnline k judge.id from _ fleet (λ j. refl) (λ _ j on. on) (λ j. le) h
FleetStep-IsOnline {from} {until} {fleet} k short (connects judge now le) h =
    save-IsOnline k judge.id from _ fleet (λ j. refl) (λ _ j _. refl) (λ j. le) h
FleetStep-IsOnline {from} {until} {fleet} k short (disconnects judge now le other) h =
    save-IsOnline k judge.id from _ fleet (λ j. refl) (λ t. absurd (ground arith)) (λ j. le) h
FleetStep-IsOnline {from} {until} {fleet} k short (edits i set now le same kept) h =
    save-IsOnline k i from (λ j. record (set j) { updated_at = now }) fleet same kept (λ j. le) h
FleetStep-IsOnline {from} {until} {fleet} k short (monitors now le) (j, found, on, at) =
    let fresh : is_silent now j ≡ false = ground arith in
    (
      j,
      row-update_where (λ j. j.id) k (is_silent now) (sent_offline now) fleet (λ j. refl) found
          ∙ ap (λ b. some (if b then sent_offline now j else j)) fresh,
      on,
      at,
    )

FleetReach-IsOnline :
    (k : ℕ) {from until : ℕ} {fleet new : Fleet}
    → until ≤ from + heartbeat_timeout
    → FleetReach k from until fleet new
    → IsOnline k from fleet
    → IsOnline k from new
FleetReach-IsOnline k short arrived h = h
FleetReach-IsOnline k short (goes_on before step) h =
    FleetStep-IsOnline k short step (FleetReach-IsOnline k short before h)

-- A judge that sends a heartbeat is online for the next two minutes at least, whatever it, the other
-- judges and the checks do, unless its connection to the older bridge ends or an administrator takes
-- it offline.
pub report_load-IsOnline :
    (judge : Judge) (load now until : ℕ) (fleet new : Fleet)
    → find_judge judge.id fleet ≡ some judge
    → until ≤ now + heartbeat_timeout
    → FleetReach judge.id now until (report_load judge load now fleet) new
    → IsOnline judge.id now new
unfolding report_load
report_load-IsOnline judge load now until fleet new found short later =
    FleetReach-IsOnline judge.id short later (
      on_air,
      row-update_where (λ j. j.id) judge.id (λ j. j.id == judge.id) _ fleet (λ j. refl) found
          ∙ ap (λ b. some (if b then on_air else judge)) ((==_iff judge.id judge.id).1 refl),
      refl,
      omega arith,
    )
  where
    on_air : Judge
    on_air = record judge {
      online = true;
      last_seen = some now;
      current_load = load;
      load = some load;
      updated_at = now;
    }
