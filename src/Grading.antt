-- ===== src/Grading.antt =====
-- backend/grading: the grade scale, GPA and CGPA, academic standing and degree classes.
pub mod Scales
pub mod Gpa
pub mod Standing
