-- ===== src/Security/BanManager/Tests.antt =====
-- Runs of CorePeerBanManager (lib/security.ts).
use xpi_p2p_ts.Dict
use xpi_p2p_ts.Security.BanManager.{BanManager, is_allowed}
use xpi_p2p_ts.Security.BanManager.Escalation.{
  warnings, warnings_in, warn_all, warn_all-not_allowed,
}
use xpi_p2p_ts.Base.{◌≡◌, inl, string_key, String_discrete, [], ◌∷◌, false, arith}

abbrev banned_bob : BanManager
banned_bob = record {
  blacklist = [];
  temp_bans = ("bob", 500) ∷ [];
  warning_count = ("bob", 9) ∷ [];
}

warn_all-not_allowed_example :
    (is_allowed 99999999 "bob"
      (warn_all "late" ((100, "eve") ∷ (101, "bob") ∷ []) (banned_bob, [])).0).1
    ≡ false
unfolding warnings warnings_in Dict.get String_discrete
warn_all-not_allowed_example =
    warn_all-not_allowed "bob" "late" ((100, "eve") ∷ (101, "bob") ∷ []) (banned_bob, []) 99999999
      (inl (omega arith)) (omega arith)
