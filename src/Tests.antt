-- ===== src/Tests.antt =====
-- Tests of the definitions and instances of the theorems, at concrete inputs.
mod Fixtures
mod RulesCases
mod ProxyCases
mod UpstreamCases
mod DialCases
mod DaemonCases
mod SocksCases
mod HttpCases
mod ForwardCases
mod CliCases
mod ServerCases
