-- ===== src/Gateway/Assess/Enforced.antt =====
-- A denied client is banned.
use x402_health_oracle.Prelude.{Bool, true, false}
use x402_health_oracle.Crypto.{Crypto}
use x402_health_oracle.Double.{Double}
use x402_health_oracle.Gateway.Cache.{Cache}
use x402_health_oracle.Gateway.Guard.{Guard}
use x402_health_oracle.Gateway.Request.{Request}
use x402_health_oracle.Gateway.Enclave.{Session}
use x402_health_oracle.Gateway.Assess.{
  AssessReply, WalletField, no_wallet, wallet_text, no_text, rate_limited, thrown, assessed,
  is_deny,
}

-- The reply denies the client.
abbrev pub is_denial : {W : Type 0} → AssessReply W → Bool
is_denial rate_limited = false
is_denial thrown = false
is_denial (assessed a) = is_deny a.decision

-- The wallet of the body does not make `lookupWallet` throw.
abbrev pub is_readable : WalletField → Bool
is_readable no_wallet = true
is_readable (wallet_text _) = true
is_readable no_text = false
