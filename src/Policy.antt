-- ===== src/Policy.antt =====
-- bgp_policy_analyzer.py and analyzer_helpers.py: the checks of BGP policies.
pub mod Config
pub mod Closure
pub mod Relations
pub mod AsPath
pub mod LookingGlass
pub mod Log
pub mod Collect
pub mod Analysis
pub mod Reports
