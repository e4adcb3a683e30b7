-- ===== src/Mcp/Tests.antt =====
-- The tool on a concrete answer of the endpoint.
use x402_health_oracle.Prelude.{false, true, some}
use x402_health_oracle.Mcp.{
  Chain, arbitrum, bool, str, number, Fetched, answered, latency, preflight_network_health,
}
use x402_health_oracle.Mcp.Preflight.{IsReplyTo, preflight_network_health_lem}

abbrev fetch : Chain → Fetched
fetch _ = answered true 200 (
    some (record {
      safe = bool false;
      reason = str "elevated_latency";
      delayed_s = number 30;
      as_of = number 5;
    }))

preflight_network_health_lem_example :
    IsReplyTo latency (preflight_network_health fetch (some arbitrum) latency) (fetch arbitrum)
preflight_network_health_lem_example = preflight_network_health_lem fetch (some arbitrum) latency
