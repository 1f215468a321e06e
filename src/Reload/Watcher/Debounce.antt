-- ===== src/Reload/Watcher/Debounce.antt =====
-- The debounce timer coalesces a burst of file events into one reload.
use trino_goway.Base.{
  ◌≡◌, ◌∙◌, ap, Bool, false, ◌||◌, Option, List, [], ◌∷◌, ◌++◌, arith, Text, map, if◌then◌else◌,
}
use trino_goway.Reload.Config.{Config}
use trino_goway.Reload.Watcher.{
  reload, loop, Loop, Event, file_event, timer_fired, FileEvent, wants_reload,
}

-- One event of the list is a write, a creation or a renaming.
abbrev pub any_wanted : List FileEvent → Bool
any_wanted [] = false
any_wanted (e ∷ es) = wants_reload e || any_wanted es

module _ (hash_bytes : Text → Text) (unmarshal : Text → Config → Option Config) where
  loop-file_events :
      (burst : List FileEvent) (es : List Event) (s : Loop)
      → loop hash_bytes unmarshal (map file_event burst ++ es) s
        ≡ loop hash_bytes unmarshal es (record s { is_armed = s.is_armed || any_wanted burst })
  unfolding loop
  loop-file_events [] es s = ap (loop hash_bytes unmarshal es) (ground arith)
  loop-file_events (e ∷ burst) es s =
      loop-file_events burst es _ ∙ ap (loop hash_bytes unmarshal es) (ground arith)

  -- However many file events come before the timer fires, and however often it fires after them, there
  -- is one reload if some event was a write, a creation or a renaming or the timer was armed before,
  -- with what the file holds when the timer fires first; and no reload otherwise.
  pub burst_reloads_once :
      (burst : List FileEvent) (a b c d : Option Text) (s : Loop)
      → loop hash_bytes unmarshal
          (map file_event burst ++ (timer_fired a b ∷ (timer_fired c d ∷ [])))
          s
        ≡ record {
          watcher =
              if s.is_armed || any_wanted burst
              then reload hash_bytes unmarshal a b s.watcher
              else s.watcher;
          is_armed = false;
        }
  unfolding loop
  burst_reloads_once burst a b c d s =
      loop-file_events burst (timer_fired a b ∷ (timer_fired c d ∷ [])) s ∙ ground arith
