-- ===== src/Downstream.antt =====
-- internal/downstream: the SSH client side of the gateway.
pub mod Scp
pub mod Dial
