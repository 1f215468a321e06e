-- ===== src/Stats/UiApi/Session.antt =====
-- The session of the UI collector, and the queued queries of the users.
use trino_goway.Base.{
  ℕ, ◌+◌, ◌≡◌, refl, ◌==◌, ◌⊎◌, inl, inr, Option, none, some, List, [], ◌∷◌, ◌++◌, arith,
  if◌then◌else◌, Text, codes, is_empty, text_eq, text_eq_iff, Bool-cases, Option-cases,
}
use trino_goway.Dict.{lookup, put, lookup-put}
use trino_goway.Stats.Collector.{ClusterStats, Backend, stats_builder}
use trino_goway.Stats.UiApi.{
  Session, Transport, UiStats, after_status, with_stats, count_or_zero, tally_users, get,
  collect_users, decoded, collect_stats, ensure_login, collect,
}

-- how often a user stands in a list
unfoldable pub occurrences : Text → List Text → ℕ
occurrences u [] = 0
occurrences u (v ∷ us) = let rest = occurrences u us in if text_eq v u then rest + 1 else rest

-- The count of a user is that of the entries with the user's name, on top of what was counted.
pub lookup-tally_users :
    (counts : List (Text × ℕ)) (us : List Text) (u : Text)
    → count_or_zero (lookup u (tally_users counts us))
      ≡ count_or_zero (lookup u counts) + occurrences u us
unfolding tally_users occurrences
lookup-tally_users counts [] u = ground arith
lookup-tally_users counts (v ∷ us) u = ground (
  arith,
  lookup-tally_users (put v (count_or_zero (lookup v counts) + 1) counts) us u,
  lookup-put v u (count_or_zero (lookup v counts) + 1) counts,
  text_eq_iff v u,
)

module _ {J : Type 0} (t : Transport J) (retries : ℕ) where
  abbrev pub users_status : Session J → Backend → ℕ
  users_status session b = (get t retries session (b.url ++ codes "/ui/api/query?state=QUEUED")).1

  abbrev pub stats_status : Session J → Backend → ℕ
  stats_status session b = (get t retries session (b.url ++ codes "/ui/api/stats")).1

  session-collect_users :
      (b : Backend) (session : Session J) (cs : ClusterStats)
      → (collect_users t retries b session cs).0 ≡ after_status (users_status session b) session
  unfolding collect_users
  session-collect_users b session cs = refl

  session-decoded :
      (b : Backend) (session : Session J) (cs : ClusterStats) (o : Option UiStats)
      → ((decoded t retries b session cs o).0 ≡ session)
        ⊎ ((decoded t retries b session cs o).0 ≡ after_status (users_status session b) session)
  session-decoded b session cs none = inl refl
  session-decoded b session cs (some s) = inr (session-collect_users b session (with_stats s cs))

  session-collect_stats :
      (b : Backend) (session : Session J)
      → let kept : Session J = after_status (stats_status session b) session in
        ((collect_stats t retries b session).0 ≡ kept)
        ⊎ ((collect_stats t retries b session).0 ≡ after_status (users_status kept b) kept)
  unfolding collect_stats
  session-collect_stats b session =
      let (body, status) = get t retries session (b.url ++ codes "/ui/api/stats") in
      elim (Bool-cases (is_empty body)) [
        | inl e ↦ inl (rw (e) refl)
        | inr e ↦ rw (e) (
            session-decoded b (after_status status session) (stats_builder b) (t.decode_stats body))
      ]

  held_or_dropped :
      (b : Backend) (j : J)
      → ((collect_stats t retries b (some j)).0 ≡ some j)
        ⊎ (((collect_stats t retries b (some j)).0 ≡ none)
            × ((stats_status (some j) b ≡ 401) ⊎ (users_status (some j) b ≡ 401)))
  held_or_dropped b j = elim (Bool-cases (stats_status (some j) b == 401)) [
    | inl e ↦ elim (session-collect_stats b (some j)) [
      | inl h ↦ inr (ground arith, inl (ground arith))
      | inr h ↦ inr (ground arith, inl (ground arith))
    ]
    | inr e ↦ elim (Bool-cases (users_status (some j) b == 401)) [
      | inl k ↦ elim (session-collect_stats b (some j)) [
        | inl h ↦ inl (ground arith)
        | inr h ↦ inr (ground arith, inr (ground arith))
      ]
      | inr k ↦ elim (session-collect_stats b (some j)) [
        | inl h ↦ inl (ground arith)
        | inr h ↦ inl (ground arith)
      ]
    ]
  ]

  -- Collect ends with the session that it held or logged in to, or else with none, after an answer of
  -- 401 to one of the two requests made with that session. With no login it leaves the session as it was.
  pub collect_session :
      (b : Backend) (session : Session J)
      → ((ensure_login t retries session b.url ≡ none)
          × (collect t retries b session ≡ (session, stats_builder b)))
        ⊎ ((j : J) × (ensure_login t retries session b.url ≡ some j)
            × (((collect t retries b session).0 ≡ some j)
                ⊎ (((collect t retries b session).0 ≡ none)
                    × ((stats_status (some j) b ≡ 401) ⊎ (users_status (some j) b ≡ 401)))))
  unfolding collect
  collect_session b session = elim (Option-cases (ensure_login t retries session b.url)) [
    | inl e ↦ inl (e, rw (e, collect) refl)
    | inr (j, e) ↦ inr (j, e, rw (e, collect) (held_or_dropped b j))
  ]
