-- ===== src/Grammar/Losses.antt =====
-- parser/Parser.cc, parseConstInt: what an integer constant of bytes loses.
