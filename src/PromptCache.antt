-- ===== src/PromptCache.antt =====
-- src/kry/kry_prompt_cache.py: the value of provider prompt caching, from reported usage at list prices.
pub mod Prices
pub mod Valuation
pub mod Understated
pub mod Summary
pub mod Totals
mod Tests
