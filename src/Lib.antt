-- ===== src/Lib.antt =====
-- WebProbe: the scan engine of the worker, the score of a report, and the decisions that the web
-- application and the worker share.
--
-- The worker runs checks on a site. Before a check runs, the engine asks the scope guard whether
-- the target is one of the site's origins, the authorization whether the scan may do as much, and
-- the budget ledger whether the check's price can still be paid; what the check reports becomes
-- evidence of a run. The web application turns the findings and the summary of a scan into a
-- score, and compares scans as far as both are complete. Technologies that a scan observed are
-- matched against the rules of published vulnerabilities. The crawler asks the policy of
-- robots.txt before it opens a page. A deep scan runs under a lease in the database, of which one
-- worker at a time holds the current attempt; an ordinary scan keeps its attempts in the same table.
--
-- The files, and the code that each models:
--   Base: names of the libraries, lists, keyed tables (maps and sets in insertion order), results
--     that may be thrown errors, texts as UTF-16 units, JSON values, and dates.
--   ScanEngine/Types, Budget: apps/worker/src/scan-engine/types.ts and budget-ledger.ts. The ledger
--     is a record, each method a function from the ledger to a result and the next ledger.
--   ScanEngine/Authorization, Profiles, Scope, Registry, Evidence: the files of these names beside
--     it (authorizeScan, resolveScanProfile, ScopeGuard, CheckRegistry, createEvidence).
--   ScanEngine/Engine: engine.ts, runChecks. How the race between an analysis, its timeout and the
--     abort signal ends, the clock and the parsing of URLs come from the environment.
--   Contracts/Completeness: packages/contracts/src/scan-completeness.ts.
--   Contracts/Products: packages/contracts/src/vulnerability-products.ts.
--   Contracts/Versions, Matching: packages/contracts/src/vulnerability-matching.ts; the former is
--     parseNumericVersion and compareVersions, the latter matchTechnologyToRule(s).
--   Score/Types, Coverage, Category, Report: apps/web/src/lib/report-score (types.ts with grade.ts,
--     coverage.ts with security-http-penalty.ts, score-category.ts, score-report.ts).
--   Robots/Glob: apps/worker/src/scanner-v2/robots.ts, ruleMatches; Robots/Escapes:
--     normalizePercentEscapes; Robots/Allowed: isRobotsPathAllowed, and
--     Robots/Parse: parseRobotsTxt of the same file.
--   Security/Urls, Targets, Ownership, Tokens: packages/security/src/index.ts, in this order the
--     shape of a URL, assertPublicHttpUrl, the proof that an organization owns a site, and the
--     sealed tokens of shared reports. DNS, ipaddr.js, the parsing of URLs, and node's hashes,
--     ciphers and encodings are parameters; what the round trip of a token needs of them is the
--     record IsSound of Tokens/RoundTrip.
--   DeepLease/Rows, Claims, Checks, Endings: apps/worker/src/scan-engine/deep-lease.ts, the
--     transaction of persistDeepCheckRuns in check-persistence.ts beside it, and recordDeepFailure of
--     apps/worker/src/internal-deep-worker.ts, over a database that holds one scan with its attempts
--     and its site. Each query takes a clock reading of its own; a renewal takes the database
--     that its assertion saw and the one that its update finds. Outside: the two functions that
--     change the attempts without a lease, fenceRunningDeepAttempts of
--     apps/web/src/lib/deep-audit-grants.ts and reconcileStaleDeepScan of
--     apps/worker/src/scan-scheduler.ts. Steps is the relation of what any number of workers and
--     these may do, with a claim in two parts.
--   Findings/Comparison, Alerts, Followup: apps/web/src/lib/scan-comparison.ts, and of
--     apps/worker/src scan-alerts.ts and finding-followup-state.ts.
--   ScanRetry/Errors, Attempts: apps/worker/src/scan-retry.ts, over the rows of DeepLease.
--   Monitoring/State, Fleet: apps/web/src/lib/monitoring-state.ts and fleet-attention.ts.
--
-- Numbers are natural numbers where the code only takes safe, nonnegative ones; any other number of
-- a request is the value `other`. Rounded quotients of the score are exact. The only fuel is the
-- budget that ruleMatches has itself. Lower casing of vendors and products needs the Unicode
-- tables and is a parameter, as is the parsing of URLs. The UUIDs of the database are the numbers
-- that they are.
--
-- Not modelled: the analyses of the checks, browsers and sockets, the monitor of a lease with its
-- timers, the rows that a scan's results become, queues and their scheduling, the feeds of
-- vulnerabilities, mail, and the user interface.
pub mod Base
pub mod Contracts
pub mod DeepLease
pub mod Findings
pub mod Monitoring
pub mod Robots
pub mod ScanEngine
pub mod ScanRetry
pub mod Score
pub mod Security
