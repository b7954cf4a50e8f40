-- ===== src/Manifest/Marks.antt =====
-- src/manifest/watcher.rs: a path that is in `processed` stays there while the watcher runs.
use z8s.Base.{
  ◌≡◌, refl, inl, inr, Bool, true, false, not, ◌||◌, Option, none, some, List, [], ◌∷◌,
  if◌then◌else◌, Bool-cases,
}
use z8s.Base.Text.{Text, text_eq_refl}
use z8s.Base.Text.Trim.{trim}
use z8s.Resource.{AnyResource}
use z8s.Resource.Yaml.{Yaml, parse_manifest_yaml}
use z8s.Manifest.{
  ManifestWatcher, Files, Event, created, modified, removed, other, failed, apply_each,
  apply_parsed, process_text, process_file, on_created, on_modified, on_event, on_events,
  is_processed, mark, is_empty, is_yaml,
}

pub is_processed-mark : (path : Text) (w : ManifestWatcher) → is_processed path (mark path w) ≡ true
is_processed-mark path w = elim (Bool-cases (is_processed path w)) [
  | inl e ↦ rw e e
  | inr e ↦ rw e (rw (text_eq_refl path) refl)
]

either_true : (a b : Bool) → b ≡ true → a || b ≡ true
either_true true b e = refl
either_true false b e = e

mark-keeps :
    (path other_path : Text) (w : ManifestWatcher)
    → is_processed path w ≡ true
    → is_processed path (mark other_path w) ≡ true
mark-keeps path other_path w e = elim (Bool-cases (is_processed other_path w)) [
  | inl there ↦ rw there e
  | inr new ↦ rw new (either_true _ _ e)
]

module _ {V : Type 0} (yaml : Yaml V) (path : Text) where
  abbrev pub IsMarked : ManifestWatcher → Type 0
  IsMarked w = is_processed path w ≡ true

  parsed-keeps :
      (fs : Files) (p : Text) (parsed : Option (List AnyResource)) (w : ManifestWatcher)
      → IsMarked w
      → IsMarked ((apply_parsed fs p parsed w).0)
  parsed-keeps fs p none w h = h
  parsed-keeps fs p (some rs) w h =
      mark-keeps path p (record w { store = apply_each fs rs w.store }) h

  text-keeps :
      (fs : Files) (p : Text) (found : Option Text) (w : ManifestWatcher)
      → IsMarked w
      → IsMarked ((process_text yaml fs p found w).0)
  text-keeps fs p none w h = h
  text-keeps fs p (some content) w h = elim (Bool-cases (is_empty (trim content))) [
    | inl e ↦ rw e h
    | inr e ↦ rw e (parsed-keeps fs p (parse_manifest_yaml yaml content) w h)
  ]

  file-keeps :
      (fs : Files) (p : Text) (w : ManifestWatcher)
      → IsMarked w
      → IsMarked ((process_file yaml fs p w).0)
  unfolding process_file
  file-keeps fs p w h = text-keeps fs p (fs.read_to_string p) w h

  if-keeps :
      (b : Bool) (v w : ManifestWatcher) → IsMarked v → IsMarked w → IsMarked (if b then v else w)
  if-keeps true v w hv hw = hv
  if-keeps false v w hv hw = hw

  created-keeps :
      (fs : Files) (paths : List Text) (w : ManifestWatcher)
      → IsMarked w
      → IsMarked (on_created yaml fs paths w)
  unfolding on_created
  created-keeps fs [] w h = h
  created-keeps fs (p ∷ paths) w h = created-keeps fs paths _ (
      if-keeps (not (is_yaml p) || is_processed p w) w (process_file yaml fs p w).0 h
        (file-keeps fs p w h))

  modified-keeps :
      (fs : Files) (paths : List Text) (w : ManifestWatcher)
      → IsMarked w
      → IsMarked (on_modified yaml fs paths w)
  unfolding on_modified
  modified-keeps fs [] w h = h
  modified-keeps fs (p ∷ paths) w h =
      modified-keeps fs paths _
        (if-keeps (not (is_yaml p)) w (process_file yaml fs p w).0 h (file-keeps fs p w h))

  event-keeps :
      (fs : Files) (e : Event) (w : ManifestWatcher) → IsMarked w → IsMarked (on_event yaml fs e w)
  unfolding on_event
  event-keeps fs (created paths) w h = created-keeps fs paths w h
  event-keeps fs (modified paths) w h = modified-keeps fs paths w h
  event-keeps fs (removed paths) w h = h
  event-keeps fs other w h = h
  event-keeps fs failed w h = h

  pub events-keep :
      (es : List (Files × Event)) (w : ManifestWatcher)
      → IsMarked w
      → IsMarked (on_events yaml es w)
  unfolding on_events
  events-keep [] w h = h
  events-keep ((fs, e) ∷ es) w h = events-keep es (on_event yaml fs e w) (event-keeps fs e w h)
