-- ===== src/Args.antt =====
-- internal/args: the flag values that change a list of the configuration.
pub mod ArrayTransform
