-- ===== src/Games.antt =====
-- game.c: the games.
pub mod Snake
pub mod Pong
pub mod Racing
pub mod Tetris
