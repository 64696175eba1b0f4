-- ===== src/Buffers/Pool/Short.antt =====
-- A released buffer whose length is no bucket size, core/encoding/buffer-utils.ts.
