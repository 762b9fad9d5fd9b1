-- ===== src/EventQueue/Toggler.antt =====
-- The switch of event processing: `ProcessEventsToggler` of ci-bench-runner/src/event_queue.rs. The
-- file system's watcher is a parameter: its reports are values here.
pub mod Switching
use rustls_bench_app.Base.{
  ℕ, ◌≡◌, Bool, true, false, not, ◌||◌, ◌&&◌, Option, none, some, List, [], ◌∷◌, ◌++◌,
  if◌then◌else◌,
}
use rustls_bench_app.Base.Text.{Text, codes, text_eq}
use rustls_bench_app.Base.Result.{Result, ok, err, panic, Error, ◌>>=◌}

-- notify: what happened, and to which paths, by the parts of their names.
pub data EventKind : Type 0 where
  create remove modify access other : EventKind

pub record Event : Type 0 where
  pub kind : EventKind
  pub paths : List (List Text)

abbrev pub pause_file : Text
pause_file = codes "pause"

-- `Path::file_name`
unfoldable pub file_name : List Text → Option Text
file_name [] = none
file_name (name ∷ []) = some name
file_name (dir ∷ name ∷ path) = file_name (name ∷ path)

abbrev pub is_pause : Option Text → Bool
is_pause none = false
is_pause (some name) = text_eq name pause_file

unfoldable pub names_pause : List (List Text) → Bool
unfolding file_name
names_pause [] = false
names_pause (path ∷ paths) = is_pause (file_name path) || names_pause paths

abbrev pub switch : EventKind → Bool → Bool
switch create enabled = false
switch remove enabled = true
switch modify enabled = enabled
switch access enabled = enabled
switch other enabled = enabled

-- The watcher's callback: the value of the channel after a report.
unfoldable pub on_report : Result Event → Bool → Bool
unfolding names_pause
on_report (ok event) enabled =
    if names_pause event.paths then switch event.kind enabled else enabled
on_report (err e) enabled = enabled
on_report panic enabled = enabled

-- The first value of the channel, from `try_exists`.
abbrev pub first_value : Result Bool → Bool
first_value (ok exists) = not exists
first_value (err e) = true
first_value panic = true

-- The watcher is made, the path that is shown is found, and the watch begins; the value is read at
-- the start.
unfoldable pub new :
    (exists : Result Bool) → (watcher canonical watch : Result (Unit {0})) → Result Bool
new exists watcher canonical watch = do
  watcher' ← watcher
  canonical' ← canonical
  watch' ← watch
  ok (first_value exists)

abbrev pub processing_enabled : Bool → Bool
processing_enabled value = value

abbrev pub processing_disabled : Bool → Bool
processing_disabled value = not (processing_enabled value)

-- `wait_for`: the values that the channel takes, until the first that is true.
unfoldable pub wait_for_processing_enabled : List Bool → Option (List Bool)
wait_for_processing_enabled [] = none
wait_for_processing_enabled (value ∷ values) =
    let rest = wait_for_processing_enabled values in if value then some values else rest

-- The watched folder and the switch: whether the pause file is there, the value of the channel, the
-- reports under way, whether the watch has begun, and whether the file came or went without a report
-- of a creation or a removal.
pub record Folder : Type 0 where
  pub present : Bool
  pub value : Bool
  pub reports : List (Result Event)
  pub watching : Bool
  pub missed : Bool

pub data Change : Type 0 where
  -- The pause file appears or goes, with the reports of it.
  creates removes : Change
  -- It is renamed into place or away, which notify reports as a modification of a name.
  renames : Change
  -- Anything else that is reported: of other files, or of the file's contents.
  otherwise : (event : Event) → Change

abbrev pub about_pause : EventKind → Event
about_pause kind = record { kind = kind; paths = (codes "." ∷ pause_file ∷ []) ∷ [] }

-- The report of a change, once the watch has begun.
abbrev pub report : Bool → Event → List (Result Event) → List (Result Event)
report watching event reports = if watching then reports ++ (ok event ∷ []) else reports

unfoldable pub change : Change → Folder → Folder
change creates f = if f.present then f else record f {
  present = true;
  reports = report f.watching (about_pause create) f.reports;
  missed = f.missed || not f.watching;
}
change removes f =
    if f.present
    then record f {
      present = false;
      reports = report f.watching (about_pause remove) f.reports;
      missed = f.missed || not f.watching;
    }
    else f
change renames f = record f {
  present = not f.present;
  reports = report f.watching (about_pause modify) f.reports;
  missed = true;
}
change (otherwise event) f = record f { reports = report f.watching event f.reports }

abbrev pub switches : EventKind → Bool
switches create = true
switches remove = true
switches modify = false
switches access = false
switches other = false

-- Harmless: a report that is not of a creation or a removal of the pause file.
unfoldable pub is_harmless : Change → Bool
unfolding names_pause
is_harmless creates = true
is_harmless removes = true
is_harmless renames = true
is_harmless (otherwise event) = not (names_pause event.paths && switches event.kind)

unfoldable pub deliver : Result Event → List (Result Event) → Folder → Folder
unfolding on_report
deliver r rest f = record f { value = on_report r f.value; reports = rest }

pub data Step (f : Folder) : Folder → Type 0 where
  changes : (c : Change) → is_harmless c ≡ true → Step f (change c f)
  watches : Step f (record f { watching = true })
  fails : (e : Error) → Step f (record f { reports = f.reports ++ (err e ∷ []) })
  delivers :
      (r : Result Event) (rest : List (Result Event))
      → f.reports ≡ r ∷ rest
      → Step f (deliver r rest f)

-- From `try_exists` on.
unfoldable pub start : (present : Bool) → Folder
unfolding new
start present = record {
  present = present;
  value = first_value (ok present);
  reports = [];
  watching = false;
  missed = false;
}

pub data Reachable : Folder → Type 0 where
  starts : (present : Bool) → Reachable (start present)
  goes : (f g : Folder) → Reachable f → Step f g → Reachable g
