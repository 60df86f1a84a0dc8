-- ===== src/Tests.antt =====
-- Runs of the model on small inputs, and the theorems at inputs that meet their hypotheses. One tick of
-- the clock is a millisecond, and doubles have three decimals.
mod Buckets
mod Windows
mod Policies
mod Store
mod Loading
mod Memory
mod Access
mod Codec
mod Api
mod Serving
mod Replies
mod Starting
