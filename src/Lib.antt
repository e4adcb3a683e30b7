-- ===== src/Lib.antt =====
-- The gateway of the x402 health oracle: the detectors that score a request, the registries that
-- issue and redeem proofs and tokens, the trust engine that turns signals into a decision, and the
-- MCP server that asks the oracle for an agent.
--
-- The parts and the code that they model:
--   Sniper         gateway/src/sniper.ts: Score (scoreBotRequest and its statistics), Blocklist
--                  (IpBlocklist), RequestLog (RequestLog)
--   Shadow         gateway/src/middleware/shadowFilter.ts
--   Zk             gateway/src/services/zkProof.ts
--   PrivacyPass    gateway/src/services/privacyPass.ts: Oprf (the functions), Issuer (the class)
--   Wallet         gateway/src/services/walletBinder.ts
--   Bans           gateway/src/db/persist.ts: the bans, and Profiles
--   Identity       gateway/src/services/agentIdentity.ts
--   Trust          gateway/src/services/trustEngine.ts (Engine), trustSignals.ts (Signals), and the
--                  assessment of gateway/server.ts (Verdicts)
--   Classifier     gateway/src/services/agentClassifier.ts
--   Automation     gateway/src/services/automationDetector.ts
--   Jitter         gateway/src/services/jitterProbe.ts
--   Stats          gateway/src/utils/math.ts
--   Rhythm         gateway/src/services/rhythmManager.ts: Pulse (generateSyncPulse), Session
--                  (validateRhythm)
--   Seal           gateway/src/services/sealValidator.ts, over the sessions of Rhythm
--   Tls            gateway/src/services/tlsFingerprint.ts: Parse (parseClientHello), Ja4 (computeJA4),
--                  Resolve (resolveTlsFp, tlsRisk)
--   Drift          gateway/src/services/driftModel.ts: Quantile (P2Quantile), PageHinkley, Threshold
--                  (DriftAdaptiveThreshold)
--   Welford        gateway/src/welford.ts
--   Sybil          gateway/src/services/sybilCluster.ts, over the profiles of Welford
--   Gateway        gateway/server.ts: Request (getClientIp, sessionIdOf, checkConsistency), Guard (the
--                  bans), Filter (sniperFilter), Stall (microStallMiddleware), Pow (/api/challenge,
--                  /api/verify-pow), Rate (checkFreeRateLimit), Enclave (/api/enclave, /api/wallet),
--                  Handshake (PQC_RESP), Health (/api/health), Phoenix (/api/agent/interact),
--                  Registry (/api/zk, /api/health-proof, /api/wallet/bind, /api/pat/issue), Assess
--                  (/api/classify, /api/trust-assessment, /api/agent/verify), Admin (/api/admin,
--                  /api/check-ip, /api/sybil), Measure (a batch of the probe, /api/sync-pulse,
--                  /api/verify-rhythm)
--   Noise          gateway/src/services/noiseBridge.ts
--   Mcp            mcp-server/src/index.ts
-- Prelude has the shared lists, texts, dictionaries and integers, Double the interface of floating
-- point numbers with its laws, Encoding hexadecimal, decimal and UTF-8 text, Crypto the hashes.
--
-- How the code is modelled. A module-level map or an object's fields are a state that an operation
-- takes and returns; each reading of the clock and each random draw is an argument. A Map is a list
-- of pairs in the order of insertion. A text is the list of its code units. An exception is `none`,
-- or an answer of its own. A double is an element of a type with the operations of Double, since the
-- language has no floating point; theorems on order take the laws of Double.Laws as hypotheses,
-- which hold of the fixed-point numbers of Double.Fixed. The curve, the hashes and the signature
-- schemes are parameters, since they are packages that the code calls. In Shadow the records stand
-- on a heap, because the map and the callbacks share them, and a request, a callback and a reset are
-- steps of a relation.
--
-- The handlers of the server are joined by the state that they share: every detector bans through
-- Guard, which keeps the cache and the store of Bans together; the filter scores with Sniper, flags in
-- Sybil and moves its cutoff with Drift; the enclave takes the sessions of the handshake, the seals of
-- Seal and the tokens of PrivacyPass; the assessment feeds Trust with the signals of Rhythm,
-- Classifier, Automation and Wallet. A handler takes the parts of the state that it uses and returns
-- them changed. The caches are the package lru-cache: Gateway.Cache is its interface, the laws of its
-- documentation are hypotheses, and Gateway.Cache.Dict is a cache of which they hold. Argon2id, the
-- lattice cryptography and the reader of a seal's header are parameters too. The readings of the clock
-- between two waits of a handler are one argument, as no other handler runs between them. What is
-- written to the log, the console and the web sockets is left out.
--
-- Fuel: `countBits` runs on 32 rounds, the width of the number that it shifts. The loops of the
-- parser of hellos run on the length of the buffer, which each of them goes forward in. The digits of
-- a number are written on its value and one.
--
-- Not modelled: the user interface, the worker that measures time and the event log, which are input
-- and output; of gateway/server.ts the temperature, the histogram and the DNA hash of a batch,
-- /api/silicon-metrics, xdp-sync, the discovery document, the exposition of metrics, the exchange with
-- the agent and the static files; and the start of the profiles of db/persist.ts from their file.
pub mod Prelude
pub mod Sniper
pub mod Double
pub mod Automation
pub mod Classifier
pub mod Encoding
pub mod Zk
pub mod PrivacyPass
pub mod Crypto
pub mod Wallet
pub mod Bans
pub mod Identity
pub mod Trust
pub mod Tls
pub mod Drift
pub mod Welford
pub mod Sybil
pub mod Stats
pub mod Jitter
pub mod Mcp
pub mod Rhythm
pub mod Seal
pub mod Shadow
pub mod Noise
pub mod Gateway
