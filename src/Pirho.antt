-- ===== src/Pirho.antt =====
-- The Pirho compiler of the kernel: src/sys/np and src/sys/arch/amd64/np.
pub mod Chars
pub mod Token
pub mod Lexer
pub mod Symbol
pub mod Piir
pub mod Conv
pub mod Parser
pub mod Compile
pub mod Init
