-- ===== src/EventQueue/Toggler/Switching.antt =====
-- The switch and the pause file: ci-bench-runner/src/event_queue.rs, `ProcessEventsToggler`.
use rustls_bench_app.Base.{
  ◌≡◌, Bool, true, false, not, List, [], ◌∷◌, ◌++◌, if◌then◌else◌, arith, refl,
}
use rustls_bench_app.Base.Text.{text_eq}
use rustls_bench_app.Base.Result.{Result, ok, err}
use rustls_bench_app.EventQueue.Toggler.{
  EventKind, create, remove, modify, access, other, Event, file_name, names_pause, switch,
  on_report, processing_enabled, Folder, Change, creates, removes, renames, otherwise, about_pause,
  report, change, is_harmless, switches, deliver, Step, changes, watches, fails, delivers, start,
  Reachable, starts, goes,
}

-- The value once every report has come.
abbrev settled : List (Result Event) → Bool → Bool
settled [] value = value
settled (r ∷ rs) value = settled rs (on_report r value)

settled-append :
    (rs : List (Result Event)) (r : Result Event) (value : Bool)
    → settled (rs ++ (r ∷ [])) value ≡ on_report r (settled rs value)
settled-append [] r value = refl
settled-append (q ∷ rs) r value = settled-append rs r (on_report q value)

switch-same : (k : EventKind) (value : Bool) → switches k ≡ false → switch k value ≡ value
switch-same create value h = cc
switch-same remove value h = cc
switch-same modify value h = refl
switch-same access value h = refl
switch-same other value h = refl

harmless-on_report :
    (event : Event) (value : Bool)
    → is_harmless (otherwise event) ≡ true
    → on_report (ok event) value ≡ value
unfolding is_harmless on_report
harmless-on_report event value h = ground (arith, switch-same event.kind value)

-- Where nothing was missed, the value becomes what the file says.
abbrev Agrees : Folder → Type 0
Agrees f = f.missed ≡ false → settled f.reports f.value ≡ not f.present

-- The reports of a change are delivered after those under way.
settled-report :
    (watching : Bool) (event : Event) (rs : List (Result Event)) (value : Bool)
    → settled (report watching event rs) value
      ≡ (if watching then on_report (ok event) (settled rs value) else settled rs value)
settled-report true event rs value = settled-append rs (ok event) value
settled-report false event rs value = refl

on_report-about_pause :
    (k : EventKind) (value : Bool) → on_report (ok (about_pause k)) value ≡ switch k value
unfolding on_report names_pause file_name text_eq
on_report-about_pause k value = refl

change-Agrees : (c : Change) (f : Folder) → is_harmless c ≡ true → Agrees f → Agrees (change c f)
unfolding change
change-Agrees creates f h a = ground (
  arith,
  a,
  settled-report f.watching (about_pause create) f.reports f.value,
  on_report-about_pause create (settled f.reports f.value),
)
change-Agrees removes f h a = ground (
  arith,
  a,
  settled-report f.watching (about_pause remove) f.reports f.value,
  on_report-about_pause remove (settled f.reports f.value),
)
change-Agrees renames f h a = λ m. cc
change-Agrees (otherwise event) f h a = λ m. ground (
  arith,
  a m,
  settled-report f.watching event f.reports f.value,
  harmless-on_report event (settled f.reports f.value) h,
)

Step-Agrees : (f g : Folder) → Step f g → Agrees f → Agrees g
unfolding deliver on_report
Step-Agrees f g (changes c h) a = change-Agrees c f h a
Step-Agrees f g watches a = a
Step-Agrees f g (fails e) a = λ m. rw (settled-append f.reports (err e) f.value) (a m)
Step-Agrees f g (delivers r rest e) a = λ m.
    let taken : settled f.reports f.value ≡ settled rest (on_report r f.value) = rw e refl in
    let before = a m in cc

Reachable-Agrees : {f : Folder} → Reachable f → Agrees f
unfolding start
Reachable-Agrees (starts present) = λ m. refl
Reachable-Agrees (goes f g r st) = Step-Agrees f g st (Reachable-Agrees r)

-- Once every report has been delivered, processing is enabled exactly where there is no `pause` file,
-- whatever happened since the program looked for it: provided that it neither came nor went before the
-- watch began, and was never renamed.
pub processing_enabled_lem :
    (f : Folder)
    → Reachable f
    → f.missed ≡ false
    → f.reports ≡ []
    → processing_enabled f.value ≡ not f.present
processing_enabled_lem f r m none_left = ground (arith, none_left, Reachable-Agrees r m)
