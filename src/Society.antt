-- ===== src/Society.antt =====
-- SystemSocial.cpp, with what the agents feel and notice: moods and their contagion, the threats
-- that are perceived, and the dialogues that agents begin.
pub mod Perception
pub mod Emotion
pub mod Dialogue
pub mod Candidates
pub mod Initiate
mod Tests
