-- ===== src/Tabs/ProjectId.antt =====
-- extension/src/tabs.ts: project ids `t-<epoch>-<chromeId>` and `t-<epoch>-<chromeId>-r<n>`, and the
-- epoch. Texts are lists of code units. Numbers are exact: `Number.parseInt` rounds from 2^53 on.
pub mod Decimal
pub mod Parsing
