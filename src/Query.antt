-- ===== src/Query.antt =====
-- internal/query: the built-in answers to questions. Words finds the parts of a question, Numbers what
-- the numbers' search finds, Engine answers, and Answers and
-- Modified say what some questions are answered with.
pub mod Words
pub mod Numbers
pub mod Engine
pub mod Answers
pub mod Modified
